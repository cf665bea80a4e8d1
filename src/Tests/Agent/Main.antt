-- ===== src/Tests/Agent/Main.antt =====
-- The theorems on src/labelfab/agent/__main__.py and source_dir.py at concrete inputs.
use labelfab.Common.{true, false, List, [], ◌∷◌, none, some, ◌≡◌, refl}
use labelfab.Agent.Spool.{JobRow, empty_spool}
use labelfab.Agent.Source.{print_job, probe_command}
use labelfab.Agent.Directory.{File, Polled, poll}
use labelfab.Agent.Directory.Polls.{Committed, poll-Committed}
use labelfab.Common.{◌+◌, ◌≤◌, ok}
use labelfab.Agent.Main.{
  Item, work, Agent, stop, testing, holding, done, at, serve, shut_down, serves, Steps, then,
}
use labelfab.Agent.Main.Stop.{work_done, stop-can_end, stop-ends}
use labelfab.Contract.{idle}
use labelfab.Agent.Snapshot.{PrinterStatus, no_snapshot, to_status}
use labelfab.Agent.Source.Status.{StatusTopic, start, drop}
use labelfab.Agent.Source.Status.Topics.{
  Event, publishes, connects, drops, apply_all, IsTruthful, IsDown, apply_all-IsTruthful,
}
use labelfab.Agent.Coalescer
use labelfab.Common.{dict_get, dict_set}
use labelfab.Agent.Sending.{send}
use labelfab.Agent.Printing.{mark_partial}
use labelfab.Agent.Accounting.{
  fail_copy, maybe_finalize, is_complete, total_expected, settled, finalize,
}
use labelfab.Agent.World.{World, publish_status}
use labelfab.Tests.Agent.{bolt_pending, env, idle_world, bolt_job, nut_job}

abbrev files : List File
files =
    record { name = "a.json"; content = some bolt_job; at = 5 }
    ∷ record { name = "b.json"; content = none; at = 6 }
    ∷ record { name = "c.json"; content = some nut_job; at = 7 }
    ∷ []

abbrev nothing_polled : Polled
nothing_polled = record {
  spool = empty_spool;
  queue = [];
  done = [];
  rejected = [];
  left = [];
  enqueued = 0;
}

poll-Committed_example :
    (rows : List JobRow) × Committed nothing_polled (poll files nothing_polled) rows
poll-Committed_example = poll-Committed files nothing_polled

-- The probe is in hand and a label waits in the strip when the stop is asked for.
abbrev waiting_world : World
waiting_world = record idle_world {
  coalescer = record (idle_world.coalescer) { pending = bolt_pending ∷ [] };
}

abbrev stopping : Agent
stopping =
    stop
      (record { world = waiting_world; queue = work (print_job "j1") ∷ []; stop = false; acks = 0 })

abbrev in_hand : Item
in_hand = work probe_command

abbrev served : Agent
served = record stopping { world = (serve env in_hand stopping.world).1 }

abbrev flushed : Agent
flushed = record served { world = (shut_down env served).1 }

-- The last flush raises nothing.
flush_returns : shut_down env served ≡ (ok tt, flushed.world)
unfolding shut_down serve Coalescer.flush publish_status send fail_copy dict_get mark_partial
    dict_set Coalescer.job_ids maybe_finalize is_complete total_expected settled finalize
flush_returns = refl

ending : Steps env (at (holding in_hand) stopping) (at done flushed)
unfolding serve
ending =
    then (at (holding in_hand) stopping) (at testing served) (at done flushed)
      (serves in_hand stopping served.world refl)
      (stop-can_end env served flushed.world refl flush_returns)

stop-ends_example :
    (work_done env (at (holding in_hand) stopping) (at done flushed) ending + 0 ≤ 1)
    × (done ≡ done → flushed.world.coalescer.pending ≡ [])
stop-ends_example = stop-ends env (holding in_hand) done stopping flushed ending refl (λ e. cc)

abbrev known_status : PrinterStatus
known_status = to_status no_snapshot "d30" idle none 2

abbrev offline : StatusTopic
offline = record {
  last_status = known_status;
  armed = none;
  is_connected = false;
  held_will = none;
  retained = none;
}

abbrev events : List Event
events = publishes known_status true ∷ connects 0 ∷ drops ∷ connects 5 ∷ connects 0 ∷ []

apply_all-IsTruthful_example :
    let u = apply_all events (start offline) in
    IsTruthful u × (u.is_connected ≡ true → IsDown (drop u).retained)
apply_all-IsTruthful_example = apply_all-IsTruthful events offline refl
