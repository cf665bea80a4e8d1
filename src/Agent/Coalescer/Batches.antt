-- ===== src/Agent/Coalescer/Batches.antt =====
-- src/labelfab/agent/coalescer.py: what becomes of the labels between `add` and `flush`.
use labelfab.Common.{
  ℕ, ◌≡◌, refl, sym, ◌∙◌, ap, true, List, [], ◌∷◌, ◌++◌, Option, none, some, arith, append_assoc,
  append-nil, if◌then◌else◌, ◌↔◌, Bool-cases, inl, inr,
}
use labelfab.Agent.Coalescer.{
  Coalescer, PendingLabel, Batch, add, accepts, flush, flush_pending, idle_expired,
  seconds_until_idle,
}

-- The width and the time are set exactly while labels are pending.
abbrev pub Synced : Option ℕ → Option ℕ → List PendingLabel → Type 0
Synced none none [] = Unit {0}
Synced (some w) (some t) (l ∷ ls) = Unit {0}
Synced _ _ _ = ⊥

abbrev pub IsValid : Coalescer → Type 0
IsValid c = Synced c.width_mm c.last_add_at c.pending

Synced-snoc :
    (ls : List PendingLabel) (l : PendingLabel) (w t : ℕ)
    → Synced (some w) (some t) (ls ++ (l ∷ []))
Synced-snoc [] l w t = tt
Synced-snoc (k ∷ ls) l w t = tt

flush_pending-IsValid :
    (ls : List PendingLabel) (c : Coalescer)
    → c.pending ≡ ls
    → IsValid c
    → IsValid (flush_pending ls c).1
flush_pending-IsValid [] c e v = v
flush_pending-IsValid (l ∷ ls) c e v = tt

abbrev pub batch_labels : List (Option Batch) → List PendingLabel
batch_labels [] = []
batch_labels (none ∷ bs) = batch_labels bs
batch_labels (some b ∷ bs) = b.labels ++ batch_labels bs

flush_pending-pending :
    (ls : List PendingLabel) (c : Coalescer)
    → c.pending ≡ ls
    → (batch_labels ((flush_pending ls c).0 ∷ []) ≡ ls) × ((flush_pending ls c).1.pending ≡ [])
flush_pending-pending [] c e = (refl, e)
flush_pending-pending (l ∷ ls) c e = (append-nil (l ∷ ls), refl)

flush-pending :
    (c : Coalescer) → (batch_labels ((flush c).0 ∷ []) ≡ c.pending) × ((flush c).1.pending ≡ [])
unfolding flush
flush-pending c = flush_pending-pending c.pending c refl

flush-IsValid : (c : Coalescer) → IsValid c → IsValid (flush c).1
unfolding flush
flush-IsValid c v = flush_pending-IsValid c.pending c refl v

-- A batch in front of the others, and the labels that follow.
one_more :
    (b : Option Batch) (bs : List (Option Batch)) {front rest : List PendingLabel}
    (left : List PendingLabel)
    → batch_labels (b ∷ []) ≡ front
    → batch_labels bs ++ left ≡ rest
    → batch_labels (b ∷ bs) ++ left ≡ front ++ rest
one_more none bs left e f = rw (← e) f
one_more (some b) bs left e f =
    rw (append_assoc b.labels (batch_labels bs) left, f, ← e, append-nil b.labels) refl

-- What a client does with the strip, and what it does not see: the clock.
pub data Op : Type 0 where
  put : PendingLabel → ℕ → ℕ → Op
  take_strip : Op

abbrev pub after_add : Option Coalescer → Coalescer → Coalescer
after_add none c = c
after_add (some d) c = d

next-pending :
    (c : Coalescer) (l : PendingLabel) (w now : ℕ)
    → (after_add (add c l w now) c).pending ≡ c.pending ++ (if accepts c w then l ∷ [] else [])
unfolding add
next-pending c l w now = elim (Bool-cases (accepts c w)) [
  | inl fits ↦ rw fits refl
  | inr refused ↦ rw refused (sym (append-nil c.pending))
]

next-IsValid :
    (c : Coalescer) (l : PendingLabel) (w now : ℕ)
    → IsValid c
    → IsValid (after_add (add c l w now) c)
unfolding add
next-IsValid c l w now v = elim (Bool-cases (accepts c w)) [
  | inl fits ↦ rw fits (Synced-snoc c.pending l w now)
  | inr refused ↦ rw refused v
]

-- The batches returned and the strip left, a refused label leaving it as it was.
abbrev pub run : Coalescer → List Op → List (Option Batch) × Coalescer
run c [] = ([], c)
run c (put l w now ∷ ops) = run (after_add (add c l w now) c) ops
run c (take_strip ∷ ops) = let (b, c') = flush c in let (bs, d) = run c' ops in (b ∷ bs, d)

-- The labels that were accepted, in order.
abbrev pub accepted : Coalescer → List Op → List PendingLabel
accepted c [] = []
accepted c (put l w now ∷ ops) =
    (if accepts c w then l ∷ [] else []) ++ accepted (after_add (add c l w now) c) ops
accepted c (take_strip ∷ ops) = accepted (flush c).1 ops

-- Every accepted label is in exactly one place, in the order of acceptance: in the batches returned,
-- then in the strip that is left; and what is left is a valid strip.
pub run-accepted :
    (c : Coalescer) (ops : List Op)
    → IsValid c
    → (batch_labels (run c ops).0 ++ (run c ops).1.pending ≡ c.pending ++ accepted c ops)
      × IsValid (run c ops).1
run-accepted c [] v = (sym (append-nil c.pending), v)
run-accepted c (put l w now ∷ ops) v =
    let next : Coalescer = after_add (add c l w now) c in
    let one : List PendingLabel = if accepts c w then l ∷ [] else [] in
    let (places, valid) = run-accepted next ops (next-IsValid c l w now v) in
    (
      places
          ∙ (ap (λ ls. ls ++ accepted next ops) (next-pending c l w now)
              ∙ append_assoc c.pending one (accepted next ops)),
      valid,
    )
run-accepted c (take_strip ∷ ops) v =
    let (returned, emptied) = flush-pending c in
    let (places, valid) = run-accepted (flush c).1 ops (flush-IsValid c v) in
    (
      one_more (flush c).0 (run (flush c).1 ops).0 (run (flush c).1 ops).1.pending returned
          (places ∙ ap (λ ls. ls ++ accepted (flush c).1 ops) emptied),
      valid,
    )

-- The wait before an idle flush is over exactly when the strip has expired.
pub seconds_until_idle_iff :
    (c : Coalescer) (now : ℕ) → (seconds_until_idle c now ≡ some 0) ↔ (idle_expired c now ≡ true)
unfolding seconds_until_idle idle_expired
seconds_until_idle_iff c now = (λ h. ground arith, λ h. ground arith)
