-- ===== src/Agent/Directory.antt =====
-- `DirSource.poll` of src/labelfab/agent/source_dir.py. A file is its name, the job that it holds if it
-- validates, and the reading of the clock when its job is spooled; moving a file is taken to succeed.
pub mod Polls
use labelfab.Common.{ℕ, suc, List, [], ◌∷◌, ◌++◌, Option, none, some, String}
use labelfab.Contract.{PrintJob}
use labelfab.Agent.Spool.{Spool, InsertResult, new_job, duplicate_job, try_insert}
use labelfab.Agent.Source.{Work, print_job}

pub record File : Type 0 where
  pub name : String
  pub content : Option PrintJob
  pub at : ℕ

-- The spool, the print queue, the names moved to done/ and rejected/, those left in place, and how
-- many jobs were queued.
pub record Polled : Type 0 where
  pub spool : Spool
  pub queue : List Work
  pub done : List String
  pub rejected : List String
  pub left : List String
  pub enqueued : ℕ

-- `self.enqueue(job.job_id)` if the job is new, after the file was moved
abbrev pub enqueue_if_new : InsertResult → PrintJob → Polled → Polled
enqueue_if_new new_job job s = record s {
  queue = s.queue ++ (print_job job.job_id ∷ []);
  enqueued = suc s.enqueued;
}
enqueue_if_new (duplicate_job cached) job s = s

-- What follows the insert; `none` is an exception of it.
abbrev pub after_insert : String → PrintJob → Option (InsertResult × Spool) → Polled → Polled
after_insert name job none s = record s { left = s.left ++ (name ∷ []) }
after_insert name job (some (outcome, t)) s =
    enqueue_if_new outcome job (record s { spool = t; done = s.done ++ (name ∷ []) })

abbrev pub poll_content : String → ℕ → Option PrintJob → Polled → Polled
poll_content name now none s = record s { rejected = s.rejected ++ (name ∷ []) }
poll_content name now (some job) s = after_insert name job (try_insert job now s.spool) s

-- `poll`, on the files in the order of their names
unfoldable pub poll : List File → Polled → Polled
poll [] s = s
poll (f ∷ files) s = poll files (poll_content f.name f.at f.content s)
