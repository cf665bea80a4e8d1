-- ===== src/Agent/Spool/Intake.antt =====
-- `try_insert` of src/labelfab/agent/spool.py, over the life of a job.
use labelfab.Common.{
  ℕ, ◌≡◌, refl, ◌∙◌, List, [], ◌∷◌, ◌++◌, Option, none, some, String, string_eq, arith,
  if◌then◌else◌, Option-cases, inl, inr,
}
use labelfab.Contract.{JobResult, PrintJob}
use labelfab.Agent.Snapshot.{DeviceSnapshot}
use labelfab.Agent.Spool.{
  JobRow, RowState, Spool, find_key, InsertResult, new_job, duplicate_job, new_row, try_insert,
  update_rows, mark, finish_row, finish, record_dedupe, purge_dedupe, label_printed,
  save_device_snapshot, result_of,
}

-- What the agent does to the spool.
pub data Op : Type 0 where
  insert : PrintJob → ℕ → Op
  set_state : String → RowState → ℕ → Op
  finish_job : String → JobResult → ℕ → Op
  put_dedupe : String → String → ℕ → Op
  purge : ℕ → ℕ → Op
  commit_label : String → ℕ → ℕ → Op
  save_snapshot : DeviceSnapshot → Op

abbrev pub or_same : Option (InsertResult × Spool) → Spool → Spool
or_same none s = s
or_same (some (r, t)) s = t

abbrev pub apply : Op → Spool → Spool
apply (insert job now) s = or_same (try_insert job now s) s
apply (set_state id state now) s = mark id state now s
apply (finish_job id result now) s = finish id result now s
apply (put_dedupe key id now) s = record_dedupe key id now s
apply (purge ttl now) s = purge_dedupe ttl now s
apply (commit_label id index now) s = label_printed id index now s
apply (save_snapshot d) s = save_device_snapshot d s

abbrev pub apply_all : List Op → Spool → Spool
apply_all [] s = s
apply_all (op ∷ ops) s = apply_all ops (apply op s)

-- The job id and payload that stand under a key.
abbrev pub entry : Option JobRow → Option (String × PrintJob)
entry none = none
entry (some r) = some (r.job_id, r.payload)

abbrev pub spooled : String → Spool → Option (String × PrintJob)
spooled key s = entry (find_key key s.jobs)

find_key-append :
    (key : String) (rs : List JobRow) (q r : JobRow)
    → find_key key rs ≡ some r
    → find_key key (rs ++ (q ∷ [])) ≡ some r
unfolding find_key
find_key-append key [] q r e = cc
find_key-append key (x ∷ rs) q r e = ground (arith, find_key-append key rs q r)

find_key-absent :
    (key : String) (rs : List JobRow) (q : JobRow)
    → find_key key rs ≡ none
    → find_key key (rs ++ (q ∷ [])) ≡ (if string_eq.beq q.idempotency_key key then some q else none)
unfolding find_key
find_key-absent key [] q e = refl
find_key-absent key (x ∷ rs) q e = ground (arith, find_key-absent key rs q)

entry-update_rows :
    (key id : String) (f : JobRow → JobRow) (rs : List JobRow)
    → ((r : JobRow) → (f r).job_id ≡ r.job_id)
    → ((r : JobRow) → (f r).idempotency_key ≡ r.idempotency_key)
    → ((r : JobRow) → (f r).payload ≡ r.payload)
    → entry (find_key key (update_rows id f rs)) ≡ entry (find_key key rs)
unfolding find_key update_rows
entry-update_rows key id f [] hi hk hp = refl
entry-update_rows key id f (x ∷ rs) hi hk hp =
    ground (arith, hi x, hk x, hp x, entry-update_rows key id f rs hi hk hp)

entry-find_key-append :
    (key : String) (rs : List JobRow) (q : JobRow) {e : String × PrintJob}
    → entry (find_key key rs) ≡ some e
    → entry (find_key key (rs ++ (q ∷ []))) ≡ some e
entry-find_key-append key rs q {e} h = elim (Option-cases (find_key key rs)) [
  | inl absent ↦ let bad : none ≡ some e = (rw absent at h) in cc
  | inr (r, found) ↦ rw (find_key-append key rs q r found) (rw found at h)
]

insert_keeps :
    (key : String) (job : PrintJob) (now : ℕ) (s : Spool) {e : String × PrintJob}
    → spooled key s ≡ some e
    → spooled key (or_same (try_insert job now s) s) ≡ some e
unfolding try_insert
insert_keeps key job now s {e} h =
    ground (arith, entry-find_key-append key s.jobs (new_row job now) {e = e} h)

spooled-apply :
    (key : String) (op : Op) (s : Spool) {e : String × PrintJob}
    → spooled key s ≡ some e
    → spooled key (apply op s) ≡ some e
unfolding mark finish record_dedupe purge_dedupe label_printed save_device_snapshot
spooled-apply key (insert job now) s h = insert_keeps key job now s h
spooled-apply key (set_state id st now) s h =
    entry-update_rows key id _ s.jobs (λ r. refl) (λ r. refl) (λ r. refl) ∙ h
spooled-apply key (finish_job id result now) s h =
    entry-update_rows key id _ s.jobs (λ r. refl) (λ r. refl) (λ r. refl) ∙ h
spooled-apply key (put_dedupe k id now) s h = h
spooled-apply key (purge ttl now) s h = h
spooled-apply key (commit_label id index now) s h = ground arith
spooled-apply key (save_snapshot d) s h = h

spooled-apply_all :
    (key : String) (ops : List Op) (s : Spool) {e : String × PrintJob}
    → spooled key s ≡ some e
    → spooled key (apply_all ops s) ≡ some e
spooled-apply_all key [] s h = h
spooled-apply_all key (op ∷ ops) s h =
    spooled-apply_all key ops (apply op s) (spooled-apply key op s h)

spooled-try_insert :
    (job : PrintJob) (now : ℕ) (s t : Spool)
    → try_insert job now s ≡ some (new_job, t)
    → spooled job.idempotency_key t ≡ some (job.job_id, job)
unfolding try_insert
spooled-try_insert job now s t h = ground (
  arith,
  find_key-absent job.idempotency_key s.jobs (new_row job now),
  string_eq.beq_iff job.idempotency_key job.idempotency_key,
)

try_insert-spooled :
    (job : PrintJob) (now : ℕ) (s : Spool) {e : String × PrintJob}
    → spooled job.idempotency_key s ≡ some e
    → try_insert job now s
      ≡ some (duplicate_job (result_of (find_key job.idempotency_key s.jobs)), s)
unfolding try_insert
try_insert-spooled job now s h = ground arith

-- Once a job is spooled, a delivery with its key is a duplicate and changes nothing, whatever the
-- agent has done to the spool in between.
pub try_insert-once :
    (job again : PrintJob) (now later : ℕ) (s t : Spool) (ops : List Op)
    → try_insert job now s ≡ some (new_job, t)
    → again.idempotency_key ≡ job.idempotency_key
    → (cached : Option JobResult) × (try_insert again later (apply_all ops t)
        ≡ some (duplicate_job cached, apply_all ops t))
try_insert-once job again now later s t ops h same =
    let there = spooled-apply_all job.idempotency_key ops t (spooled-try_insert job now s t h) in
    (
      result_of (find_key again.idempotency_key (apply_all ops t).jobs),
      try_insert-spooled again later (apply_all ops t) {e = (job.job_id, job)} (rw same there),
    )

find_key-update_rows :
    (key id : String) (f : JobRow → JobRow) (rs : List JobRow) (r : JobRow)
    → ((q : JobRow) → (f q).idempotency_key ≡ q.idempotency_key)
    → find_key key rs ≡ some r
    → r.job_id ≡ id
    → find_key key (update_rows id f rs) ≡ some (f r)
unfolding find_key update_rows
find_key-update_rows key id f [] r hk e same = cc
find_key-update_rows key id f (x ∷ rs) r hk e same =
    ground (arith, hk x, find_key-update_rows key id f rs r hk, string_eq.beq_iff x.job_id id)

-- Once the job of a key is finished, a delivery with that key gets the result, from a spool that it
-- leaves unchanged.
pub try_insert-finish :
    (job : PrintJob) (result : JobResult) (now later : ℕ) (s : Spool) (r : JobRow)
    → find_key job.idempotency_key s.jobs ≡ some r
    → try_insert job later (finish r.job_id result now s)
      ≡ some (duplicate_job (some result), finish r.job_id result now s)
unfolding finish try_insert
try_insert-finish job result now later s r found =
    rw
      (find_key-update_rows job.idempotency_key r.job_id (finish_row result now) s.jobs r
        (λ q. refl) found refl)
      refl
