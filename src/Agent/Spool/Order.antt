-- ===== src/Agent/Spool/Order.antt =====
-- `queued` of src/labelfab/agent/spool.py: the order and the contents of the list.
use labelfab.Common.{
  ℕ, ◌+◌, ◌≤◌, Bool, true, false, List, [], ◌∷◌, String, string_eq, All, if◌then◌else◌,
}
use labelfab.Agent.Spool.{JobRow, Spool, is_pending}

abbrev pub NotBefore : ℕ → List JobRow → Type 0
NotBefore t rs = All (λ r. t ≤ r.created_at) rs

-- Oldest first.
abbrev pub IsByAge : List JobRow → Type 0
IsByAge [] = Unit {0}
IsByAge (r ∷ rs) = NotBefore r.created_at rs × IsByAge rs

-- How often a job id stands in a list.
abbrev pub one_if : Bool → ℕ
one_if true = 1
one_if false = 0

abbrev pub count_id : String → List String → ℕ
count_id id [] = 0
count_id id (k ∷ ks) = one_if (string_eq.beq k id) + count_id id ks

-- How many rows of a job are waiting to be printed.
abbrev pub count_pending : String → List JobRow → ℕ
count_pending id [] = 0
count_pending id (r ∷ rs) =
    (if is_pending r.state then one_if (string_eq.beq r.job_id id) else 0) + count_pending id rs
