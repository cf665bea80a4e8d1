-- ===== src/Agent/Spool/Progress.antt =====
-- `label_printed` and `record_dedupe` of src/labelfab/agent/spool.py.
use labelfab.Common.{
  ℕ, ◌≡◌, ◌&&◌, ◌||◌, List, [], ◌∷◌, ◌++◌, String, string_eq, arith, nat_eq, dict_get-dict_set,
  ◌==◌,
}
use labelfab.Agent.Spool.{
  Spool, PrintedRow, is_printed, label_is_printed, label_printed, is_recent_dedupe, record_dedupe,
}

printed-append :
    (id : String) (i : ℕ) (rs : List PrintedRow) (r : PrintedRow)
    → label_is_printed id i (rs ++ (r ∷ [])) ≡ (label_is_printed id i rs || is_printed id i r)
unfolding label_is_printed
printed-append id i [] r = ground arith
printed-append id i (q ∷ rs) r = ground (arith, printed-append id i rs r)

-- Committing a label marks that label of that job as printed, and no other.
pub label_is_printed-label_printed :
    (id k : String) (i j now : ℕ) (s : Spool)
    → label_is_printed k j (label_printed id i now s).printed_rows
      ≡ ((string_eq.beq id k && i == j) || label_is_printed k j s.printed_rows)
unfolding label_printed
label_is_printed-label_printed id k i j now s = ground (
  arith,
  printed-append k j s.printed_rows (record { job_id = id; label_index = i; printed_at = now }),
  string_eq.beq_iff id k,
)

-- A recorded key is recent, and the others are as before.
pub is_recent-record_dedupe :
    (key k id : String) (now : ℕ) (s : Spool)
    → is_recent_dedupe k (record_dedupe key id now s)
      ≡ (string_eq.beq key k || is_recent_dedupe k s)
unfolding is_recent_dedupe record_dedupe
is_recent-record_dedupe key k id now s =
    ground (arith, dict_get-dict_set key k (record { job_id = id; printed_at = now }) s.dedupe)
