-- ===== src/Agent/Printing/Credits.antt =====
-- `_print_strip` and `_credit_copy` of src/labelfab/agent/worker.py: how many copies are credited.
use labelfab.Common.{
  ◌↔◌, sym, ℕ, ◌+◌, ◌≡◌, ◌≢◌, refl, ◌∙◌, ap, Bool, true, ◌&&◌, ◌==◌, List, [], ◌∷◌, Option, none,
  some, String, string_eq, nat_eq, arith, if◌then◌else◌, dict_get, dict_set, dict_get-dict_set,
  Option-cases, inl, inr, All, Result, ok, err, Dict,
}
use labelfab.Agent.Coalescer.{PendingLabel}
use labelfab.Agent.Spool.{label_printed}
use labelfab.Agent.World.{JobAcc, Env, World, Exc, M, ◌>>◌}
use labelfab.Agent.Accounting.{count_of, one_done, get_acc, credit_copy}
use labelfab.Agent.Printing.{settle_labels}

-- The copies of label `i` of job `id` that are credited as printed.
abbrev pub copies_in : ℕ → Option JobAcc → ℕ
copies_in i none = 0
copies_in i (some a) = count_of i a.done

abbrev pub copies_done : String → ℕ → Dict String JobAcc → ℕ
copies_done id i d = copies_in i (dict_get id d)

-- How often label `i` of job `id` stands in the strip.
abbrev pub is_label : String → ℕ → PendingLabel → Bool
is_label id i pl = string_eq.beq pl.job_id id && pl.label_index == i

abbrev pub occurrences : String → ℕ → List PendingLabel → ℕ
occurrences id i [] = 0
occurrences id i (pl ∷ pls) = (if is_label id i pl then 1 else 0) + occurrences id i pls

abbrev pub IsInFlight : Dict String JobAcc → PendingLabel → Type 0
IsInFlight d pl = dict_get pl.job_id d ≢ none

count_of-one_done :
    (i j : ℕ) (a : JobAcc)
    → count_of j (one_done i a).done ≡ count_of j a.done + (if i == j then 1 else 0)
count_of-one_done i j a = ground (arith, dict_get-dict_set i j (count_of i a.done + 1) a.done)

copies_done-set :
    (pl : PendingLabel) (id : String) (i : ℕ) (d : Dict String JobAcc) (a : JobAcc)
    → dict_get pl.job_id d ≡ some a
    → copies_done id i (dict_set pl.job_id (one_done pl.label_index a) d)
      ≡ copies_done id i d + (if is_label id i pl then 1 else 0)
copies_done-set pl id i d a e = ground (
  arith,
  dict_get-dict_set pl.job_id id (one_done pl.label_index a) d,
  count_of-one_done pl.label_index i a,
  string_eq.beq_iff pl.job_id id,
)

-- A write to the accumulators takes no job out of flight.
dict_set-IsInFlight :
    (id : String) (a : JobAcc) (d : Dict String JobAcc) (pls : List PendingLabel)
    → All (IsInFlight d) pls
    → All (IsInFlight (dict_set id a d)) pls
dict_set-IsInFlight id a d [] h = tt
dict_set-IsInFlight id a d (pl ∷ pls) (here, there) =
    (λ e. ground (arith, dict_get-dict_set id pl.job_id a d), dict_set-IsInFlight id a d pls there)

pub get_acc-some :
    (id : String) (w : World) (a : JobAcc) → dict_get id w.acc ≡ some a → get_acc id w ≡ (ok a, w)
unfolding get_acc
get_acc-some id w a e = ground arith

-- A step that returns hands its state to the next.
pub >>-ok : (m k : M (Unit {0})) (w : World) → (m w).0 ≡ ok tt → (m >> k) w ≡ k (m w).1
>>-ok m k w h = ap (λ r. next r) h
  where
    next : Result Exc (Unit {0}) → Result Exc (Unit {0}) × World
    next (ok a) = k (m w).1
    next (err e) = (err e, (m w).1)

module _ (env : Env) where
  pub credit_copy-acc :
      (id : String) (i : ℕ) (w : World) (a : JobAcc)
      → dict_get id w.acc ≡ some a
      → ((credit_copy env id i w).0 ≡ ok tt)
        × ((credit_copy env id i w).1.acc ≡ dict_set id (one_done i a) w.acc)
        × ((credit_copy env id i w).1.printed ≡ w.printed)
        × ((credit_copy env id i w).1.spool.jobs ≡ w.spool.jobs)
  unfolding credit_copy label_printed
  credit_copy-acc id i w a e = ground (arith, get_acc-some id w a e)

  -- What a settled strip has credited, and that it raised nothing.
  abbrev Credited : List PendingLabel → World → Result Exc (Unit {0}) × World → String → ℕ → Type 0
  Credited pls w (r, v) id i =
      (r ≡ ok tt)
      × (copies_done id i v.acc ≡ copies_done id i w.acc + occurrences id i pls)
      × (v.printed ≡ w.printed)

  settle_labels-Credited :
      (pls : List PendingLabel) (w : World) (id : String) (i : ℕ)
      → All (IsInFlight w.acc) pls
      → Credited pls w (settle_labels env true pls w) id i
  unfolding settle_labels
  settle_labels-Credited [] w id i h = (refl, omega arith, refl)
  settle_labels-Credited (pl ∷ pls) w id i (here, there) =
      elim (Option-cases (dict_get pl.job_id w.acc)) [
        | inl missing ↦ absurd (here missing)
        | inr (a, found) ↦
            let (returned, acc, printed, _) = credit_copy-acc pl.job_id pl.label_index w a found in
            let v = (credit_copy env pl.job_id pl.label_index w).1 in
            let all : All (IsInFlight v.acc) pls =
              rw acc (dict_set-IsInFlight pl.job_id (one_done pl.label_index a) w.acc pls there) in
            let step = copies_done-set pl id i w.acc a found in
            let rest = settle_labels-Credited pls v id i all in
            let moved = ap (λ d. copies_done id i d) acc in
            rw
              (>>-ok (credit_copy env pl.job_id pl.label_index) (settle_labels env true pls) w
                returned)
              (rest.0, omega (arith, rest.1, moved, step), rest.2 ∙ printed)
      ]

-- Before a write to the tally of a job in flight, the same jobs were in flight.
IsInFlight-dict_set :
    (id : String) (a b : JobAcc) (d : Dict String JobAcc) (pls : List PendingLabel)
    → dict_get id d ≡ some b
    → All (IsInFlight (dict_set id a d)) pls
    → All (IsInFlight d) pls
IsInFlight-dict_set id a b d [] found h = tt
IsInFlight-dict_set id a b d (pl ∷ pls) found (here, there) = (
  λ gone. here (ground (arith, dict_get-dict_set id pl.job_id a d, string_eq.beq_iff id pl.job_id)),
  IsInFlight-dict_set id a b d pls found there,
)

module _ (env : Env) where
  credit_copy-raises :
      (id : String) (i : ℕ) (k : M (Unit {0})) (w : World)
      → dict_get id w.acc ≡ none
      → ((credit_copy env id i >> k) w).0 ≢ ok tt
  unfolding credit_copy get_acc
  credit_copy-raises id i k w gone h = ground arith

  settle_labels-IsInFlight :
      (pls : List PendingLabel) (w : World)
      → (settle_labels env true pls w).0 ≡ ok tt
      → All (IsInFlight w.acc) pls
  unfolding settle_labels
  settle_labels-IsInFlight [] w h = tt
  settle_labels-IsInFlight (pl ∷ pls) w h =
      let rest = settle_labels env true pls in
      elim (Option-cases (dict_get pl.job_id w.acc)) [
        | inl gone ↦ absurd (credit_copy-raises pl.job_id pl.label_index rest w gone h)
        | inr (a, found) ↦
            let (returned, acc, _, _) = credit_copy-acc env pl.job_id pl.label_index w a found in
            let v = (credit_copy env pl.job_id pl.label_index w).1 in
            let whole = >>-ok (credit_copy env pl.job_id pl.label_index) rest w returned in
            let later : All (IsInFlight v.acc) pls =
              settle_labels-IsInFlight pls v (sym (ap (λ x. x.0) whole) ∙ h) in
            (
              λ gone. let bad : none ≡ some a = sym gone ∙ found in cc,
              IsInFlight-dict_set pl.job_id (one_done pl.label_index a) a w.acc pls found
                  (rw acc at later),
            )
      ]

-- When a strip was printed: nothing is raised exactly when all its jobs are in flight, and then every
-- label of every job is credited as often as it stands in the strip, and nothing more is printed.
pub settle_labels-credits :
    (env : Env) (pls : List PendingLabel) (w : World) (id : String) (i : ℕ)
    → let (r, v) = settle_labels env true pls w in
      (r ≡ ok tt ↔ All (IsInFlight w.acc) pls)
      × (r ≡ ok tt
          → (copies_done id i v.acc ≡ copies_done id i w.acc + occurrences id i pls)
            × (v.printed ≡ w.printed))
settle_labels-credits env pls w id i = (
  (settle_labels-IsInFlight env pls w, λ h. (settle_labels-Credited env pls w id i h).0),
  λ h.
      let credited = settle_labels-Credited env pls w id i (settle_labels-IsInFlight env pls w h) in
      (credited.1, credited.2),
)
