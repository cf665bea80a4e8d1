-- ===== src/Device/Parser/Parses.antt =====
-- `StatusParser.feed` of src/labelfab/device/responses.py as a relation: which items a run of bytes
-- holds, and what is left of it.
use labelfab.Common.{
  ℕ, zero, suc, ◌+◌, ◌<◌, ◌≡◌, ◌≢◌, refl, sym, ◌∙◌, subst, ◌⊎◌, drop-append, drop-length,
  length-drop, List, [], ◌∷◌, ◌++◌, length, drop, arith, inl, inr,
}
use native.Mathlib.Nat.{zero-add, suc-add}
use labelfab.Device.Parser.Scans.{
  NoPrefix, scan-whole-append, scan-odd-append, scan-junk-append, scan-NoPrefix-junk,
  scan-NoPrefix-stop,
}
use labelfab.Device.Protocol.{Bytes}
use labelfab.Device.Parser.{StatusFrame, Scan, need, junk, odd, whole, scan}

pub data Item : Type 0 where
  frame : StatusFrame → Item
  unknown : ℕ → Item

-- `Parses b is r`: the loop of `feed` finds the items `is` in the buffer `b`, and leaves `r` there.
pub data Parses : Bytes → List Item → Bytes → Type 0 where
  stop : {b : Bytes} → scan b ≡ need → Parses b [] b
  skip :
      {b r : Bytes} {is : List Item} (n : ℕ)
      → scan b ≡ junk n
      → Parses (drop n b) is r
      → Parses b is r
  miss :
      {b r : Bytes} {is : List Item} (t : ℕ)
      → scan b ≡ odd t
      → Parses (drop 2 b) is r
      → Parses b (unknown t ∷ is) r
  hit :
      {b r : Bytes} {is : List Item} (f : StatusFrame) (n : ℕ)
      → scan b ≡ whole f n
      → Parses (drop n b) is r
      → Parses b (frame f ∷ is) r

Parses-junk :
    {b r : Bytes} {is : List Item} (k : ℕ)
    → scan b ≡ junk k
    → Parses b is r
    → Parses (drop k b) is r
Parses-junk {b} k e (stop e') = absurd (let c : need ≡ junk k = sym e' ∙ e in cc)
Parses-junk {b} {r} {is} k e (skip n e' d) =
    let same : n ≡ k = cc in subst (λ m. Parses (drop m b) is r) same d
Parses-junk {b} k e (miss t e' d) = absurd (let c : odd t ≡ junk k = sym e' ∙ e in cc)
Parses-junk {b} k e (hit f n e' d) = absurd (let c : whole f n ≡ junk k = sym e' ∙ e in cc)

drop-past : (b c : Bytes) (k : ℕ) → drop (length b + k) (b ++ c) ≡ drop k c
drop-past [] c k = rw zero-add refl
drop-past (x ∷ b) c k = rw suc-add (drop-past b c k)

junk-cases : (s : Scan) → ((k : ℕ) × (s ≡ junk k)) ⊎ ((k : ℕ) → s ≢ junk k)
junk-cases need = inr (λ k e. cc)
junk-cases (junk k) = inl (k, refl)
junk-cases (odd t) = inr (λ k e. cc)
junk-cases (whole f n) = inr (λ k e. cc)

-- A run without a prefix contributes nothing to what follows it.
Parses-NoPrefix :
    {c r : Bytes} {is : List Item} (b : Bytes) → NoPrefix b → Parses c is r → Parses (b ++ c) is r
Parses-NoPrefix [] h d = d
Parses-NoPrefix {c} {r} {is} (x ∷ b) h d = elim (junk-cases (scan c)) [
  | inl (k, e) ↦
      skip (suc (length b) + k) (scan-NoPrefix-junk x b c k h e)
        (subst (λ t. Parses t is r) (sym (drop-past (x ∷ b) c k)) (Parses-junk k e d))
  | inr stops ↦
      skip (suc (length b)) (scan-NoPrefix-stop x b c h stops)
        (subst (λ t. Parses t is r) (sym (drop-length (x ∷ b) c)) d)
]

-- A buffer that lacks bytes holds no item.
pub Parses-need :
    {b r : Bytes} {is : List Item} → scan b ≡ need → Parses b is r → (is ≡ []) × (r ≡ b)
Parses-need e (stop e') = (refl, refl)
Parses-need e (skip n e' d) = absurd (let c : need ≡ junk n = sym e ∙ e' in cc)
Parses-need e (miss t e' d) = absurd (let c : need ≡ odd t = sym e ∙ e' in cc)
Parses-need e (hit f n e' d) = absurd (let c : need ≡ whole f n = sym e ∙ e' in cc)

drop-all : (b : Bytes) → drop (length b) b ≡ []
drop-all [] = refl
drop-all (x ∷ b) = drop-all b

pub scan-nil : scan [] ≡ need
unfolding scan
scan-nil = refl

-- Parsing what is left of one run together with the next run parses the two runs joined.
pub Parses-append :
    {b r r' : Bytes} {is js : List Item} (c : Bytes)
    → Parses b is r
    → Parses (r ++ c) js r'
    → Parses (b ++ c) (is ++ js) r'
Parses-append c (stop e) d = d
Parses-append {b} {r} {r'} {is} {js} c (skip n e d) d' = elim (scan-junk-append b c n e).2 [
  | inl e' ↦ skip n e' (
      subst (λ x. Parses x (is ++ js) r') (sym (drop-append n b c (scan-junk-append b c n e).1))
        (Parses-append c d d'))
  | inr (all, clean) ↦
      let gone : drop n b ≡ [] = rw all (drop-all b) in
      let (none_found, left) = Parses-need (rw gone scan-nil) d in
      let left' : r ≡ [] = left ∙ gone in
      rw none_found (Parses-NoPrefix b clean (subst (λ x. Parses (x ++ c) js r') left' d'))
]
Parses-append {b} {r' = r'} {js = js} c (miss {is = is} t e d) d' =
    let (long, e') = scan-odd-append b c t e in
    miss t e'
      (subst (λ x. Parses x (is ++ js) r') (sym (drop-append 2 b c long)) (Parses-append c d d'))
Parses-append {b} {r' = r'} {js = js} c (hit {is = is} f n e d) d' =
    let (pos, long, e') = scan-whole-append b c f n e in
    hit f n e'
      (subst (λ x. Parses x (is ++ js) r') (sym (drop-append n b c long)) (Parses-append c d d'))

-- The items of a run, and what is left of it.
abbrev pub Parsed : Bytes → Type 0
Parsed b = (is : List Item) × (r : Bytes) × Parses b is r

parse_scan :
    (fuel : ℕ) (b : Bytes)
    → length b < suc fuel
    → ((c : Bytes) → length c < fuel → Parsed c)
    → (s : Scan) → scan b ≡ s
    → Parsed b
parse_scan fuel b h rest need e = ([], b, stop e)
parse_scan fuel b h rest (junk n) e =
    let (pos, le, how) = scan-junk-append b [] n e in
    let (is, r, d) = rest (drop n b) (omega (arith, length-drop {0} n b)) in (is, r, skip n e d)
parse_scan fuel b h rest (odd t) e =
    let le = (scan-odd-append b [] t e).0 in
    let (is, r, d) = rest (drop 2 b) (omega (arith, length-drop {0} 2 b)) in
    (unknown t ∷ is, r, miss t e d)
parse_scan fuel b h rest (whole f n) e =
    let (pos, le, how) = scan-whole-append b [] f n e in
    let (is, r, d) = rest (drop n b) (omega (arith, length-drop {0} n b)) in
    (frame f ∷ is, r, hit f n e d)

-- Every run of bytes parses: `fuel` bounds its length.
pub Parses-total : (fuel : ℕ) (b : Bytes) → length b < fuel → Parsed b
Parses-total zero b h = absurd (omega arith)
Parses-total (suc fuel) b h = parse_scan fuel b h (λ c k. Parses-total fuel c k) (scan b) refl

-- What is left lacks bytes.
pub Parses-left : {b r : Bytes} {is : List Item} → Parses b is r → scan r ≡ need
Parses-left (stop e) = e
Parses-left (skip n e d) = Parses-left d
Parses-left (miss t e d) = Parses-left d
Parses-left (hit f n e d) = Parses-left d
