-- ===== src/Agent/Main/Stop.antt =====
-- `Agent.run` of src/labelfab/agent/__main__.py: what follows once the stop is asked for.
use labelfab.Common.{
  ℕ, ◌+◌, ◌≤◌, ◌≡◌, ◌≢◌, refl, sym, ap, ◌∙◌, arith, true, false, List, [], Result, ok, err,
}
use labelfab.Agent.World.{Env, World, Exc}
use labelfab.Agent.Printing.Emptied.{flush-empties}
use labelfab.Agent.Loop.{tick}
use labelfab.Agent.Directory.{File}
use labelfab.Agent.Main.{
  Agent, Phase, testing, getting, timed_out, holding, leaving, done, Running, at, shut_down,
  after_tick, Step, delivered, stopped, goes_on, leaves, takes, waits, idles, serves, shuts_down,
  Steps, here, then,
}

-- How much work the loop may still take on, once the stop is asked for.
abbrev pub work_left : Phase → ℕ
work_left testing = 0
work_left getting = 1
work_left timed_out = 1
work_left (holding item) = 1
work_left leaving = 0
work_left done = 0

-- Nothing waits in the strip behind the last flush.
abbrev pub IsSettled : Running → Type 0
IsSettled r = r.phase ≡ done → r.agent.world.coalescer.pending ≡ []

module _ (env : Env) where
  -- Whether a step serves an item, or ticks.
  abbrev pub works : (r s : Running) → Step env r s → ℕ
  works r s (idles files a b e) = 1
  works r s (serves item a w e) = 1
  works r s _ = 0

  abbrev pub work_done : (r s : Running) → Steps env r s → ℕ
  work_done r s (here r') = 0
  work_done r t (then r' s t' step run) = works r s step + work_done s t run

  -- What a step keeps, once the stop is asked for.
  abbrev Kept : (r s : Running) → Step env r s → Type 0
  Kept r s step =
      (s.agent.stop ≡ true)
      × (works r s step + work_left s.phase ≤ work_left r.phase)
      × (IsSettled r → IsSettled s)

  after_tick-stop :
      (files : List File) (r : Result Exc (Unit {0})) (a b : Agent)
      → after_tick files r a ≡ (ok tt, b)
      → b.stop ≡ a.stop
  after_tick-stop files (ok _) a b e = sym (ap (λ p. p.1.stop) e)
  after_tick-stop files (err x) a b e = let bad : err x ≡ ok tt = ap (λ p. p.0) e in cc

  Step-Kept : (r s : Running) (step : Step env r s) → r.agent.stop ≡ true → Kept r s step
  unfolding shut_down
  Step-Kept r s (delivered p ttl now m a) asked = (asked, omega arith, λ settled. settled)
  Step-Kept r s (stopped p a) asked = (refl, omega arith, λ settled. settled)
  Step-Kept r s (goes_on a going) asked = let bad : false ≡ true = sym going ∙ asked in cc
  Step-Kept r s (leaves a asked_for) asked = (asked, omega arith, λ settled finished. cc)
  Step-Kept r s (takes item rest a first) asked = (asked, omega arith, λ settled finished. cc)
  Step-Kept r s (waits a empty) asked = (asked, omega arith, λ settled finished. cc)
  Step-Kept r s (idles files a b e) asked =
      let kept =
        after_tick-stop files (tick env a.world).0 (record a { world = (tick env a.world).1 }) b
          e in
      (kept ∙ asked, omega arith, λ settled finished. cc)
  Step-Kept r s (serves item a w e) asked = (asked, omega arith, λ settled finished. cc)
  Step-Kept r s (shuts_down a w e) asked = (
    asked,
    omega arith,
    λ settled finished. sym (ap (λ x. x.1.coalescer.pending) e) ∙ flush-empties env a.world,
  )

  Steps-Kept :
      (r s : Running) (run : Steps env r s)
      → r.agent.stop ≡ true
      → IsSettled r
      → (work_done r s run + work_left s.phase ≤ work_left r.phase) × IsSettled s
  Steps-Kept r s (here r') asked settled = (omega arith, settled)
  Steps-Kept r t (then r' s t' step run) asked settled =
      let (still, less, keeps) = Step-Kept r s step asked in
      let (all, ends) = Steps-Kept s t run still (keeps settled) in (omega (arith, less, all), ends)

  -- At the test of the stop the loop can go on to the end, if the last flush raises nothing.
  pub stop-can_end :
      (a : Agent) (w : World)
      → a.stop ≡ true
      → shut_down env a ≡ (ok tt, w)
      → Steps env (at testing a) (at done (record a { world = w }))
  stop-can_end a w asked flushed =
      let last = at done (record a { world = w }) in
      then (at testing a) (at leaving a) last (leaves a asked)
        (then (at leaving a) last last (shuts_down a w flushed) (here last))

-- Once the stop is asked for, whatever is delivered and wherever the loop stands: at most one item more
-- is served or one tick made, none if the loop stands at its test or behind it; and when the run is
-- over nothing waits in the strip, whatever came in since the last flush.
pub stop-ends :
    (env : Env) (p q : Phase) (a b : Agent) (run : Steps env (at p a) (at q b))
    → a.stop ≡ true
    → p ≢ done
    → (work_done env (at p a) (at q b) run + work_left q ≤ work_left p)
      × (q ≡ done → b.world.coalescer.pending ≡ [])
stop-ends env p q a b run asked running =
    Steps-Kept env (at p a) (at q b) run asked (λ over. absurd (running over))
