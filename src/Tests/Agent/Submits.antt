-- ===== src/Tests/Agent/Submits.antt =====
-- The theorems on `submit` of src/labelfab/agent/worker.py at concrete inputs.
use labelfab.Common.{false, none, some, inr, ◌≡◌, refl, ◌⊎◌, ok, string_eq, nat_eq, dict_get}
use labelfab.Agent.Coalescer.{accepts, is_full}
use labelfab.Agent.Spool.{load, printing, find_job, label_is_printed, mark, is_recent_dedupe}
use labelfab.Agent.Printing.Endings.{IsDone, IsReturned}
use labelfab.Agent.Submit.{submit, plan_labels}
use labelfab.Agent.Submit.Outcomes.{submit-ends}
use labelfab.Tests.Agent.{env, idle_world, bolt_job}

submit-ends_example :
    let (r, v) = submit env "j1" idle_world in
    (r ≡ ok tt)
    × (dict_get "j1" v.acc ≡ none)
    × (string_eq.beq "j1" "j2" ≡ false → dict_get "j2" v.acc ≡ dict_get "j2" idle_world.acc)
    × (IsDone "j1" (some printing) v ⊎ IsReturned "j1" (some printing) v)
unfolding load accepts is_full plan_labels find_job label_is_printed mark is_recent_dedupe dict_get
submit-ends_example =
    submit-ends env bolt_job "j2" idle_world refl refl refl refl
      (inr (refl, refl, refl, refl, λ e. cc))
