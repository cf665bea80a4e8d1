-- ===== src/Device/Parser/Scans.antt =====
-- `StatusParser._try_one` of src/labelfab/device/responses.py: a look at the buffer, and the bytes
-- that follow.
use labelfab.Common.{
  ℕ, suc, ◌+◌, ◌≤◌, ◌<◌, ◌≡◌, ◌≢◌, refl, ◌⊎◌, false, [], ◌∷◌, ◌++◌, none, some, length, arith,
  Bool-cases, Option-cases, inl, inr, length-append, take-append, All,
}
use native.Mathlib.Nat.{add-zero, add-suc, suc-add}
use labelfab.Device.Protocol.{Bytes}
use labelfab.Device.Tags.{TagSpec, PayloadLength, length_prefixed, fixed, spec_of}
use labelfab.Device.Parser.{
  StatusFrame, is_prefix, find_prefix, Scan, junk, odd, whole, scan, scan_tag, scan_payload,
  scan_prefixed, or_all,
}

-- The look consumes between one byte and the whole buffer, and sees the same in a longer one.
abbrev pub Settled : Bytes → Bytes → ℕ → Scan → Type 0
Settled b c n s = (0 < n) × (n ≤ length b) × (scan (b ++ c) ≡ s)

scan_prefixed-append :
    (t : ℕ) (s : TagSpec) (body c : Bytes) (f : StatusFrame) (n : ℕ)
    → scan_prefixed t s body ≡ whole f n
    → (n ≤ suc (suc (length body))) × (0 < n) × (scan_prefixed t s (body ++ c) ≡ whole f n)
unfolding scan_prefixed
scan_prefixed-append t s [] c f n e = cc
scan_prefixed-append t s (k ∷ body) c f n e =
    ground (arith, length-append {0} body c, take-append {0} k body c)

scan_payload-append :
    (t : ℕ) (s : TagSpec) (l : PayloadLength) (body c : Bytes) (f : StatusFrame) (n : ℕ)
    → scan_payload t s l body ≡ whole f n
    → (n ≤ suc (suc (length body))) × (0 < n) × (scan_payload t s l (body ++ c) ≡ whole f n)
unfolding scan_payload
scan_payload-append t s length_prefixed body c f n e = scan_prefixed-append t s body c f n e
scan_payload-append t s (fixed k) body c f n e =
    ground (arith, length-append {0} body c, take-append {0} k body c)

scan_payload-not-odd :
    (t u : ℕ) (s : TagSpec) (l : PayloadLength) (body : Bytes) → scan_payload t s l body ≡ odd u → ⊥
unfolding scan_payload
scan_payload-not-odd t u s length_prefixed [] e = cc
scan_payload-not-odd t u s length_prefixed (k ∷ body) e = ground arith
scan_payload-not-odd t u s (fixed k) body e = ground arith

scan_payload-not-junk :
    (t n : ℕ) (s : TagSpec) (l : PayloadLength) (body : Bytes)
    → scan_payload t s l body ≡ junk n
    → ⊥
unfolding scan_payload
scan_payload-not-junk t n s length_prefixed [] e = cc
scan_payload-not-junk t n s length_prefixed (k ∷ body) e = ground arith
scan_payload-not-junk t n s (fixed k) body e = ground arith

pub scan-whole-append :
    (b c : Bytes) (f : StatusFrame) (n : ℕ) → scan b ≡ whole f n → Settled b c n (whole f n)
unfolding scan
scan-whole-append [] c f n e = cc
scan-whole-append (x ∷ []) c f n e = ground arith
scan-whole-append (x ∷ t ∷ body) c f n e = elim (Bool-cases (is_prefix x)) [
  | inl p ↦ elim (Option-cases (spec_of t)) [
    | inl unspecified ↦ ground arith
    | inr (s, known) ↦ ground (arith, scan_payload-append t s s.length body c f n)
  ]
  | inr p ↦ ground arith
]

pub scan-odd-append :
    (b c : Bytes) (t : ℕ) → scan b ≡ odd t → (2 ≤ length b) × (scan (b ++ c) ≡ odd t)
unfolding scan
scan-odd-append [] c u e = cc
scan-odd-append (x ∷ []) c u e = ground arith
scan-odd-append (x ∷ t ∷ body) c u e = elim (Bool-cases (is_prefix x)) [
  | inl p ↦ elim (Option-cases (spec_of t)) [
    | inl unspecified ↦ ground arith
    | inr (s, known) ↦ ground (arith, scan_payload-not-odd t u s s.length body)
  ]
  | inr p ↦ ground arith
]

-- No byte of the run begins a frame.
abbrev pub NoPrefix : Bytes → Type 0
NoPrefix = All (λ b. is_prefix b ≡ false)

-- Either a prefix is found inside, at the same place in a longer run, or there is none.
find_prefix-append :
    (b c : Bytes) (i : ℕ)
    → ((n : ℕ) × (find_prefix b i ≡ some n)
        × (find_prefix (b ++ c) i ≡ some n)
        × (i ≤ n)
        × (n < i + length b))
      ⊎ ((find_prefix b i ≡ none)
          × NoPrefix b
          × (find_prefix (b ++ c) i ≡ find_prefix c (i + length b)))
unfolding find_prefix
find_prefix-append [] c i = inr (refl, tt, rw (add-zero i) refl)
find_prefix-append (x ∷ b) c i = elim (Bool-cases (is_prefix x)) [
  | inl p ↦ inl (i, ground arith, ground arith, omega arith, omega arith)
  | inr p ↦ elim (find_prefix-append b c (suc i)) [
    | inl (n, here, later, lo, hi) ↦ inl (n, ground arith, ground arith, omega arith, omega arith)
    | inr (nowhere, clean, later) ↦
        inr (ground arith, (p, clean), ground (arith, add-suc i (length b), suc-add i (length b)))
  ]
]

scan_tag-not-junk : (bs : Bytes) {n : ℕ} → scan_tag bs ≡ junk n → ⊥
unfolding scan_tag
scan_tag-not-junk [] e = cc
scan_tag-not-junk (t ∷ body) {n} e = elim (Option-cases (spec_of t)) [
  | inl unspecified ↦ ground arith
  | inr (s, known) ↦ ground (arith, scan_payload-not-junk t n s s.length body)
]

-- Junk is dropped up to a prefix that is seen, or else it is the whole run.
pub scan-junk-append :
    (b c : Bytes) (n : ℕ)
    → scan b ≡ junk n
    → (0 < n) × (n ≤ length b) × ((scan (b ++ c) ≡ junk n) ⊎ ((n ≡ length b) × NoPrefix b))
unfolding scan
scan-junk-append [] c n e = cc
scan-junk-append (x ∷ bs) c n e = elim (Bool-cases (is_prefix x)) [
  | inl p ↦ absurd (scan_tag-not-junk bs (rw p at e))
  | inr p ↦ elim (find_prefix-append bs c 1) [
    | inl (k, here, later, lo, hi) ↦ (ground arith, ground arith, inl (ground arith))
    | inr (nowhere, clean, later) ↦ (ground arith, ground arith, inr (ground arith, (p, clean)))
  ]
]

find_prefix-NoPrefix :
    (b c : Bytes) (i : ℕ) → NoPrefix b → find_prefix (b ++ c) i ≡ find_prefix c (i + length b)
unfolding find_prefix
find_prefix-NoPrefix [] c i h = rw (add-zero i)
find_prefix-NoPrefix (x ∷ b) c i h =
    ground (arith, find_prefix-NoPrefix b c (suc i), add-suc i (length b), suc-add i (length b))

find_prefix-shift :
    (c : Bytes) (i j n : ℕ)
    → or_all (find_prefix c (i + j)) (i + n) ≡ i + or_all (find_prefix c j) n
unfolding find_prefix
find_prefix-shift [] i j n = refl
find_prefix-shift (x ∷ c) i j n = ground (arith, find_prefix-shift c i (suc j) n, add-suc i j)

-- A run without a prefix is dropped together with what is dropped after it.
pub scan-NoPrefix-junk :
    (x : ℕ) (b c : Bytes) (k : ℕ)
    → NoPrefix (x ∷ b)
    → scan c ≡ junk k
    → scan ((x ∷ b) ++ c) ≡ junk (suc (length b) + k)
unfolding scan
scan-NoPrefix-junk x b [] k h e = cc
scan-NoPrefix-junk x b (y ∷ c) k h e = elim (Bool-cases (is_prefix y)) [
  | inl p ↦ absurd (scan_tag-not-junk c (rw p at e))
  | inr p ↦ ground (
    arith,
    find_prefix-NoPrefix b (y ∷ c) 1,
    find_prefix-shift c (suc (length b)) 1 (suc (length c)),
    length-append {0} b (y ∷ c),
  )
]

-- A run without a prefix is dropped alone where a prefix, or nothing, follows.
pub scan-NoPrefix-stop :
    (x : ℕ) (b c : Bytes)
    → NoPrefix (x ∷ b)
    → ((k : ℕ) → scan c ≢ junk k)
    → scan ((x ∷ b) ++ c) ≡ junk (suc (length b))
unfolding scan
scan-NoPrefix-stop x b [] h stops =
    ground (arith, find_prefix-NoPrefix b [] 1, length-append {0} b [])
scan-NoPrefix-stop x b (y ∷ c) h stops = elim (Bool-cases (is_prefix y)) [
  | inl p ↦ ground (arith, find_prefix-NoPrefix b (y ∷ c) 1)
  | inr p ↦ absurd (stops (or_all (find_prefix c 1) (suc (length c))) (ground arith))
]
