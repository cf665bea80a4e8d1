-- ===== src/Agent/Coalescer.antt =====
-- src/labelfab/agent/coalescer.py: the strip that is waiting to be printed.
pub mod Batches
use labelfab.Common.{
  ℕ, ◌+◌, ◌-◌, ◌*◌, Bool, true, false, ◌||◌, not, List, [], ◌∷◌, ◌++◌, Option, none, some, String,
  length, leb, ◌==◌, if◌then◌else◌, Result, ok, err, dict_set, string_eq, Dict, map,
}
use labelfab.Contract.{px_units}

-- A greyscale image, row by row.
pub record Image : Type 0 where
  pub width : ℕ
  pub height : ℕ
  pub pixels : List ℕ

pub record PendingLabel : Type 0 where
  pub job_id : String
  pub label_index : ℕ
  pub image : Image

pub record Batch : Type 0 where
  pub labels : List PendingLabel
  pub tape_width_mm : ℕ

-- `seen.setdefault(pl.job_id, None)`
unfoldable pub add_job : String → List String → List String
add_job j [] = j ∷ []
add_job j (k ∷ ks) = if string_eq.beq k j then k ∷ ks else k ∷ add_job j ks

unfoldable pub jobs_from : List String → List PendingLabel → List String
unfolding add_job
jobs_from seen [] = seen
jobs_from seen (l ∷ ls) = jobs_from (add_job l.job_id seen) ls

-- `Batch.job_ids`: each job once, in the order of its first label
unfoldable pub job_ids : Batch → List String
unfolding jobs_from
job_ids b = jobs_from [] b.labels

-- `Batch.images`
abbrev pub images : Batch → List Image
images b = map (λ l. l.image) b.labels

-- Lengths are in the units of `Contract`, times in milliseconds. A method that reads the clock takes
-- the reading as its last argument.
pub record Coalescer : Type 0 where
  pub max_wait : ℕ
  pub max_length_mm : ℕ
  pub max_labels : ℕ
  pub separator_mm : ℕ
  pub pending : List PendingLabel
  pub width_mm : Option ℕ
  pub last_add_at : Option ℕ

abbrev pub same_width : Option ℕ → ℕ → Bool
same_width none w = true
same_width (some v) w = v == w

unfoldable pub accepts : Coalescer → ℕ → Bool
accepts c width = same_width c.width_mm width

-- `sum(pl.image.width for pl in self._pending)`
unfoldable pub pixels_of : List PendingLabel → ℕ
pixels_of [] = 0
pixels_of (l ∷ ls) = l.image.width + pixels_of ls

abbrev pub strip_length : ℕ → List PendingLabel → ℕ
strip_length sep [] = 0
strip_length sep (l ∷ ls) = pixels_of (l ∷ ls) * px_units + sep * (length (l ∷ ls) + 1)

unfoldable pub length_mm : Coalescer → ℕ
unfolding pixels_of
length_mm c = strip_length c.separator_mm c.pending

-- The strip with a label more.
abbrev pub with_label : Coalescer → PendingLabel → ℕ → ℕ → Coalescer
with_label c label width now = record c {
  width_mm = some width;
  pending = c.pending ++ (label ∷ []);
  last_add_at = some now;
}

-- `none` is the `ValueError` of a label of another width.
unfoldable pub add : Coalescer → PendingLabel → ℕ → ℕ → Option Coalescer
add c label width now = if accepts c width then some (with_label c label width now) else none

unfoldable pub is_full : Coalescer → Bool
unfolding length_mm
is_full c = leb c.max_labels (length c.pending) || leb c.max_length_mm (length_mm c)

abbrev pub expired : Option ℕ → List PendingLabel → ℕ → ℕ → Bool
expired none ls wait now = false
expired (some t) [] wait now = false
expired (some t) (l ∷ ls) wait now = leb wait (now - t)

-- The clock does not go back past the last label: `now - t` is exact.
unfoldable pub idle_expired : Coalescer → ℕ → Bool
idle_expired c now = expired c.last_add_at c.pending c.max_wait now

abbrev pub until_idle : Option ℕ → List PendingLabel → ℕ → ℕ → Option ℕ
until_idle none ls wait now = none
until_idle (some t) [] wait now = none
until_idle (some t) (l ∷ ls) wait now = some (wait - (now - t))

-- `max(0.0, …)` is the subtraction of ℕ.
unfoldable pub seconds_until_idle : Coalescer → ℕ → Option ℕ
seconds_until_idle c now = until_idle c.last_add_at c.pending c.max_wait now

abbrev pub width_or_zero : Option ℕ → ℕ
width_or_zero none = 0
width_or_zero (some w) = w

abbrev pub batch_of : List PendingLabel → Option ℕ → Option Batch
batch_of [] w = none
batch_of (l ∷ ls) w = some (record { labels = l ∷ ls; tape_width_mm = width_or_zero w })

abbrev pub flush_pending : List PendingLabel → Coalescer → Option Batch × Coalescer
flush_pending [] c = (none, c)
flush_pending (l ∷ ls) c =
    (batch_of (l ∷ ls) c.width_mm, record c { pending = []; width_mm = none; last_add_at = none })

-- With nothing pending, nothing changes.
unfoldable pub flush : Coalescer → Option Batch × Coalescer
flush c = flush_pending c.pending c
