-- ===== src/Agent/Directory/Polls.antt =====
-- `DirSource.poll` of src/labelfab/agent/source_dir.py: which jobs it queues.
use labelfab.Common.{
  ℕ, suc, ◌+◌, ◌≡◌, refl, ap, sym, ◌∙◌, Bool, true, false, ◌||◌, List, [], ◌∷◌, ◌++◌, append_assoc,
  append-nil, length, Option, none, some, String, string_eq, arith, All, Bool-cases, length-append,
  subst, inl, inr,
}
use labelfab.Contract.{PrintJob}
use labelfab.Agent.Spool.{JobRow, find_key, find_job, new_row, try_insert, is_row}
use labelfab.Agent.Source.{Work, print_job}
use labelfab.Agent.Directory.{File, Polled, after_insert, poll_content, poll}

-- Whether a job with this key or this id is spooled.
abbrev pub taken : PrintJob → List JobRow → Bool
taken job rows = is_row (find_key job.idempotency_key rows) || is_row (find_job job.job_id rows)

abbrev pub IsTaken : Option PrintJob → List JobRow → Type 0
IsTaken none rows = Unit
IsTaken (some job) rows = taken job rows ≡ true

is_row-find_key-append :
    (key : String) (rows : List JobRow) (q : JobRow)
    → is_row (find_key key (rows ++ (q ∷ [])))
      ≡ (is_row (find_key key rows) || string_eq.beq q.idempotency_key key)
unfolding find_key
is_row-find_key-append key [] q = ground arith
is_row-find_key-append key (r ∷ rows) q = ground (arith, is_row-find_key-append key rows q)

is_row-find_job-append :
    (id : String) (rows : List JobRow) (q : JobRow)
    → is_row (find_job id (rows ++ (q ∷ [])))
      ≡ (is_row (find_job id rows) || string_eq.beq q.job_id id)
unfolding find_job
is_row-find_job-append id [] q = ground arith
is_row-find_job-append id (r ∷ rows) q = ground (arith, is_row-find_job-append id rows q)

-- What an insert does: nothing when the job is taken, else it puts a row last.
try_insert-taken :
    (name : String) (job : PrintJob) (now : ℕ) (s : Polled)
    → taken job s.spool.jobs ≡ true
    → let t = after_insert name job (try_insert job now s.spool) s in
      (t.queue ≡ s.queue) × (t.spool ≡ s.spool) × (t.enqueued ≡ s.enqueued)
unfolding try_insert
try_insert-taken name job now s h = ground arith

try_insert-free :
    (name : String) (job : PrintJob) (now : ℕ) (s : Polled)
    → taken job s.spool.jobs ≡ false
    → let t = after_insert name job (try_insert job now s.spool) s in
      (t.queue ≡ s.queue ++ (print_job job.job_id ∷ []))
      × (t.spool.jobs ≡ s.spool.jobs ++ (new_row job now ∷ []))
      × (t.enqueued ≡ suc s.enqueued)
unfolding try_insert
try_insert-free name job now s h = ground arith

abbrev pub work_of : List JobRow → List Work
work_of [] = []
work_of (r ∷ rows) = print_job r.job_id ∷ work_of rows

work_of-append : (a b : List JobRow) → work_of (a ++ b) ≡ work_of a ++ work_of b
work_of-append [] b = refl
work_of-append (r ∷ a) b = ap (λ ws. print_job r.job_id ∷ ws) (work_of-append a b)

-- The rows that were spooled are the jobs that were queued, in order.
abbrev pub Committed : Polled → Polled → List JobRow → Type 0
Committed s t rows =
    (t.spool.jobs ≡ s.spool.jobs ++ rows)
    × (t.queue ≡ s.queue ++ work_of rows)
    × (t.enqueued ≡ s.enqueued + length rows)

Committed-nothing :
    (s t : Polled)
    → t.spool.jobs ≡ s.spool.jobs
    → t.queue ≡ s.queue
    → t.enqueued ≡ s.enqueued
    → Committed s t []
Committed-nothing s t jobs queue count =
    (jobs ∙ sym (append-nil s.spool.jobs), queue ∙ sym (append-nil s.queue), omega (arith, count))

poll_content-Committed :
    (name : String) (now : ℕ) (content : Option PrintJob) (s : Polled)
    → (rows : List JobRow) × Committed s (poll_content name now content s) rows
poll_content-Committed name now none s =
    ([], Committed-nothing s (poll_content name now none s) refl refl refl)
poll_content-Committed name now (some job) s = elim (Bool-cases (taken job s.spool.jobs)) [
  | inl known ↦
      let (queue, spool, count) = try_insert-taken name job now s known in
      (
        [],
        Committed-nothing s (poll_content name now (some job) s) (ap (λ t. t.jobs) spool) queue
            count,
      )
  | inr free ↦
      let (queue, jobs, count) = try_insert-free name job now s free in
      (new_row job now ∷ [], (jobs, queue, omega (arith, count)))
]

-- What a poll queues are the jobs whose rows it has put into the spool, in order, each once; it
-- returns their number.
pub poll-Committed :
    (files : List File) (s : Polled) → (rows : List JobRow) × Committed s (poll files s) rows
unfolding poll
poll-Committed [] s = ([], Committed-nothing s s refl refl refl)
poll-Committed (f ∷ files) s =
    let u = poll_content f.name f.at f.content s in
    let (first, (jobs, queue, count)) = poll_content-Committed f.name f.at f.content s in
    let (rest, (jobs_then, queue_then, count_then)) = poll-Committed files u in
    (
      first ++ rest,
      (
        jobs_then ∙ ap (λ rows. rows ++ rest) jobs ∙ append_assoc s.spool.jobs first rest,
        queue_then
            ∙ ap (λ ws. ws ++ work_of rest) queue
            ∙ append_assoc s.queue (work_of first) (work_of rest)
            ∙ ap (λ ws. s.queue ++ ws) (sym (work_of-append first rest)),
        omega (arith, count, count_then, length-append first rest),
      ),
    )

IsTaken-append :
    (content : Option PrintJob) (rows more : List JobRow)
    → IsTaken content rows
    → IsTaken content (rows ++ more)
IsTaken-append none rows more h = tt
IsTaken-append (some job) rows [] h = subst (IsTaken (some job)) (sym (append-nil rows)) h
IsTaken-append (some job) rows (q ∷ more) h =
    let next : taken job (rows ++ (q ∷ [])) ≡ true = ground (
      arith,
      is_row-find_key-append job.idempotency_key rows q,
      is_row-find_job-append job.job_id rows q,
    ) in
    subst (IsTaken (some job)) (append_assoc rows (q ∷ []) more)
      (IsTaken-append (some job) (rows ++ (q ∷ [])) more next)

-- After its turn, the job of a file is taken.
poll_content-IsTaken :
    (name : String) (now : ℕ) (content : Option PrintJob) (s : Polled)
    → IsTaken content (poll_content name now content s).spool.jobs
poll_content-IsTaken name now none s = tt
poll_content-IsTaken name now (some job) s = elim (Bool-cases (taken job s.spool.jobs)) [
  | inl known ↦
      let (_, spool, _) = try_insert-taken name job now s known in
      subst (λ t. taken job t.jobs ≡ true) (sym spool) known
  | inr free ↦
      let (_, jobs, _) = try_insert-free name job now s free in
      subst (λ rows. taken job rows ≡ true) (sym jobs)
        (ground (
          arith,
          is_row-find_key-append job.idempotency_key s.spool.jobs (new_row job now),
          string_eq.beq_iff job.idempotency_key job.idempotency_key,
        ))
]

poll-IsTaken :
    (files : List File) (s : Polled)
    → All (λ (f : File). IsTaken f.content (poll files s).spool.jobs) files
unfolding poll
poll-IsTaken [] s = tt
poll-IsTaken (f ∷ files) s =
    let u = poll_content f.name f.at f.content s in
    let (rows, (jobs, _, _)) = poll-Committed files u in
    (
      subst (IsTaken f.content) (sym jobs) (
          IsTaken-append f.content u.spool.jobs rows
            (poll_content-IsTaken f.name f.at f.content s)),
      poll-IsTaken files u,
    )

content-quiet :
    (name : String) (now : ℕ) (content : Option PrintJob) (s : Polled)
    → IsTaken content s.spool.jobs
    → let t = poll_content name now content s in (t.queue ≡ s.queue) × (t.spool ≡ s.spool)
content-quiet name now none s h = (refl, refl)
content-quiet name now (some job) s h =
    let (queue, spool, _) = try_insert-taken name job now s h in (queue, spool)

poll-quiet :
    (files : List File) (s : Polled)
    → All (λ (f : File). IsTaken f.content s.spool.jobs) files
    → ((poll files s).queue ≡ s.queue) × ((poll files s).spool ≡ s.spool)
unfolding poll
poll-quiet [] s h = (refl, refl)
poll-quiet (f ∷ files) s (here, there) =
    let u = poll_content f.name f.at f.content s in
    let (queue, spool) = content-quiet f.name f.at f.content s here in
    let later : All (λ (g : File). IsTaken g.content u.spool.jobs) files =
      subst (λ t. All (λ (g : File). IsTaken g.content t.jobs) files) (sym spool) there in
    let (queue_then, spool_then) = poll-quiet files u later in
    (queue_then ∙ queue, spool_then ∙ spool)

-- Files that are polled a second time, left in place or dropped again, queue nothing and spool
-- nothing.
pub poll-again :
    (files : List File) (s : Polled)
    → let once = poll files s in
      ((poll files once).queue ≡ once.queue) × ((poll files once).spool ≡ once.spool)
poll-again files s = poll-quiet files (poll files s) (poll-IsTaken files s)
