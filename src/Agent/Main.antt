-- ===== src/Agent/Main.antt =====
-- src/labelfab/agent/__main__.py: `Agent.run`, as steps of the print loop between which the network
-- thread delivers messages and a signal asks for the stop. The test of `_stop`, the taking of an item
-- and what is done with it are steps of their own, so a delivery or a stop may come between any two of
-- them. A delivery is one step, as is the work on an item, or a tick with the poll after it. An exception that `run` does not catch ends
-- the process: there is no step then.
pub mod Factory
pub mod Stop
use labelfab.Common.{
  ℕ, Bool, true, false, List, [], ◌∷◌, ◌++◌, map, ◌≡◌, Result, ok, err, if◌then◌else◌,
}
use labelfab.Contract.{JobResult}
use labelfab.Agent.World.{Env, World, Event, result, M, Exc, ◌>>◌, pass, change}
use labelfab.Agent.Printing.{flush}
use labelfab.Agent.Submit.{submit}
use labelfab.Agent.Loop.{probe_device, recover, tick}
use labelfab.Agent.Source.{
  Work, print_job, flush_command, probe_command, Message, Intake, on_message,
}
use labelfab.Agent.Directory.{File, Polled, poll}

-- What the queue holds: work, or the sentinel of `stop`.
pub data Item : Type 0 where
  work : Work → Item
  stop_item : Item

-- The worker and the spool, the queue, `_stop`, and how many deliveries were acknowledged.
pub record Agent : Type 0 where
  pub world : World
  pub queue : List Item
  pub stop : Bool
  pub acks : ℕ

-- `stop`
abbrev pub stop : Agent → Agent
stop a = record a { stop = true; queue = a.queue ++ (stop_item ∷ []) }

-- The source's view of the agent before a message.
abbrev pub intake : Agent → Intake
intake a = record { spool = a.world.spool; queue = []; results = []; acks = a.acks }

-- The MQTT source is the publisher and the spool's user: what it did to them, and to the queue.
abbrev pub take_in : Intake → Agent → Agent
take_in i a = record a {
  world = record a.world { spool = i.spool; events = a.world.events ++ map result i.results };
  queue = a.queue ++ map work i.queue;
  acks = i.acks;
}

abbrev pub deliver : ℕ → ℕ → Message → Agent → Agent
deliver ttl now m a = take_in (on_message ttl now m (intake a)) a

-- The directory's view of the agent before a poll.
abbrev pub unpolled : World → Polled
unpolled w = record {
  spool = w.spool;
  queue = [];
  done = [];
  rejected = [];
  left = [];
  enqueued = 0;
}

abbrev pub polled : Polled → Agent → Agent
polled p a = record a {
  world = record a.world { spool = p.spool };
  queue = a.queue ++ map work p.queue;
}

abbrev pub poll_files : List File → Agent → Agent
poll_files files a = polled (poll files (unpolled a.world)) a

-- An exception of the tick ends the run before the poll.
abbrev pub after_tick : List File → Result Exc (Unit {0}) → Agent → Result Exc (Unit {0}) × Agent
after_tick files (ok _) a = (ok tt, poll_files files a)
after_tick files (err e) a = (err e, a)

-- Where the loop stands: at the test of `_stop`, at `queue.get`, after `queue.Empty`, with an item that it
-- has taken, behind the loop, and behind the last flush.
pub data Phase : Type 0 where
  testing getting timed_out : Phase
  holding : Item → Phase
  leaving done : Phase

pub record Running : Type 0 where
  pub phase : Phase
  pub agent : Agent

abbrev pub at : Phase → Agent → Running
at p a = record { phase = p; agent = a }

module _ (env : Env) where
  -- What the loop does with an item: exceptions of `submit` are logged.
  unfoldable pub serve : Item → M (Unit {0})
  unfolding flush probe_device submit
  serve stop_item = pass
  serve (work flush_command) = flush env
  serve (work probe_command) = change (λ w. (probe_device env w).1)
  serve (work (print_job id)) = change (λ w. (submit env id w).1)

  -- Nothing came in time: the tick, then the directory.
  abbrev pub idle : List File → Agent → Result Exc (Unit {0}) × Agent
  idle files a = let (r, w) = tick env a.world in after_tick files r (record a { world = w })

  -- Before the loop: the probe, if it is asked for, then what a crash has left, then the directory.
  unfoldable pub start : Bool → List File → Agent → Result Exc (Unit {0}) × Agent
  unfolding probe_device recover poll
  start probe_on_start files a =
      let w = if probe_on_start then (probe_device env a.world).1 else a.world in
      let (r, v) = recover env w in after_tick files r (record a { world = v })

  -- After the loop: a strip that is half full is printed.
  unfoldable pub shut_down : Agent → Result Exc (Unit {0}) × World
  unfolding flush
  shut_down a = flush env a.world

  -- One step of the network thread, of a signal, or of the print loop.
  pub data Step : Running → Running → Type 0 where
    delivered :
        (p : Phase) (ttl now : ℕ) (m : Message) (a : Agent)
        → Step (at p a) (at p (deliver ttl now m a))
    stopped : (p : Phase) (a : Agent) → Step (at p a) (at p (stop a))
    goes_on : (a : Agent) → a.stop ≡ false → Step (at testing a) (at getting a)
    leaves : (a : Agent) → a.stop ≡ true → Step (at testing a) (at leaving a)
    takes :
        (item : Item) (rest : List Item) (a : Agent)
        → a.queue ≡ item ∷ rest
        → Step (at getting a) (at (holding item) (record a { queue = rest }))
    waits : (a : Agent) → a.queue ≡ [] → Step (at getting a) (at timed_out a)
    idles :
        (files : List File) (a b : Agent)
        → idle files a ≡ (ok tt, b)
        → Step (at timed_out a) (at testing b)
    serves :
        (item : Item) (a : Agent) (w : World)
        → serve item a.world ≡ (ok tt, w)
        → Step (at (holding item) a) (at testing (record a { world = w }))
    shuts_down :
        (a : Agent) (w : World)
        → shut_down a ≡ (ok tt, w)
        → Step (at leaving a) (at done (record a { world = w }))

  pub data Steps : Running → Running → Type 0 where
    here : (a : Running) → Steps a a
    then : (a b c : Running) → Step a b → Steps b c → Steps a c
