-- ===== src/Agent/Printing/Tallies.antt =====
-- `_print_strip` of src/labelfab/agent/worker.py: what settling the labels of a strip does to the tally of
-- their job.
use labelfab.Common.{
  ℕ, ◌+◌, ◌≡◌, refl, sym, ◌∙◌, ap, subst, Bool, true, false, List, [], ◌∷◌, some, String, string_eq,
  arith, dict_get, dict_set, dict_get-dict_set, ok, length, beq_self, All,
}
use labelfab.Agent.Coalescer.{Image, PendingLabel}
use labelfab.Agent.World.{JobAcc, Env, World, M, ◌>>◌}
use labelfab.Agent.Accounting.{
  one_done, one_failed, settled, total_expected, credit_copy, fail_copy,
}
use labelfab.Agent.Printing.{settle_label, settle_labels, mark_partial}
use labelfab.Agent.Printing.Credits.{get_acc-some, credit_copy-acc, >>-ok}
use labelfab.Agent.Printing.Endings.{
  settled-one_done, settled-one_failed, expected-one_done, expected-one_failed, fail_copy-acc,
}

-- From `w` to `v` the job has gone from the tally `a` to `b`, with `n` more copies settled; rows and
-- other jobs are the same.
pub record Settled (id k : String) (w v : World) (a b : JobAcc) (n : ℕ) : Type 0 where
  pub found : dict_get id v.acc ≡ some b
  pub more : settled b ≡ settled a + n
  pub total : total_expected b ≡ total_expected a
  pub jobs_same : v.spool.jobs ≡ w.spool.jobs
  pub others : string_eq.beq id k ≡ false → dict_get k v.acc ≡ dict_get k w.acc

abbrev partial : JobAcc → JobAcc
partial a = record a { partial_tape = true }

settled-partial :
    (a : JobAcc)
    → (settled (partial a) ≡ settled a) × (total_expected (partial a) ≡ total_expected a)
unfolding settled total_expected
settled-partial a = (refl, refl)

module _ (env : Env) (id k : String) where
  -- The tally of the job is written once.
  set-Settled :
      (w v : World) (a b : JobAcc) (n : ℕ)
      → v.acc ≡ dict_set id b w.acc
      → v.spool.jobs ≡ w.spool.jobs
      → settled b ≡ settled a + n
      → total_expected b ≡ total_expected a
      → Settled id k w v a b n
  set-Settled w v a b n acc jobs more total = record {
    found = ap (dict_get id) acc ∙ dict_get-dict_set id id b w.acc ∙ rw (beq_self id) refl;
    more = more;
    total = total;
    jobs_same = jobs;
    others = λ other. ap (dict_get k) acc ∙ dict_get-dict_set id k b w.acc ∙ rw other refl;
  }

  Settled-trans :
      {w u v : World} {a b c : JobAcc} (m n : ℕ)
      → Settled id k w u a b m
      → Settled id k u v b c n
      → Settled id k w v a c (m + n)
  Settled-trans m n first next = record {
    found = next.found;
    more = omega (arith, first.more, next.more);
    total = next.total ∙ first.total;
    jobs_same = next.jobs_same ∙ first.jobs_same;
    others = λ other. next.others other ∙ first.others other;
  }

  -- What a step that settles `n` copies of the job returns.
  abbrev pub Settles : M (Unit {0}) → World → JobAcc → ℕ → Type 0
  Settles step w a n = ((step w).0 ≡ ok tt) × (b : JobAcc) × Settled id k w (step w).1 a b n

  Settles-trans :
      (step next : M (Unit {0})) (w : World) (a : JobAcc) (m n : ℕ)
      → Settles step w a m
      → ((b : JobAcc) (u : World) → dict_get id u.acc ≡ some b → Settles next u b n)
      → Settles (step >> next) w a (m + n)
  Settles-trans step next w a m n (returned, b, first) rest =
      let (again, c, second) = rest b (step w).1 first.found in
      let whole = >>-ok step next w returned in
      (
        ap (λ x. x.0) whole ∙ again,
        c,
        subst (λ x. Settled id k w x.1 a c (m + n)) (sym whole) (Settled-trans m n first second),
      )

  mark_partial-Settles :
      (w : World) (a : JobAcc) → dict_get id w.acc ≡ some a → Settles (mark_partial env id) w a 0
  unfolding mark_partial
  mark_partial-Settles w a found =
      let done : mark_partial env id w ≡ (ok tt, record w { acc = dict_set id (partial a) w.acc }) =
        ground (arith, get_acc-some id w a found) in
      let (more, total) = settled-partial a in
      (
        ap (λ x. x.0) done,
        partial a,
        set-Settled w (mark_partial env id w).1 a (partial a) 0 (ap (λ x. x.1.acc) done)
            (ap (λ x. x.1.spool.jobs) done) (omega (arith, more)) total,
      )

  -- One label of the strip, printed or lost.
  settle_copy-Settles :
      (is_ok : Bool) (i : ℕ) (image : Image) (w : World) (a : JobAcc)
      → dict_get id w.acc ≡ some a
      → Settles
          (settle_label env is_ok (record { job_id = id; label_index = i; image = image }))
          w
          a
          1
  settle_copy-Settles true i image w a found =
      let (returned, acc, _, jobs) = credit_copy-acc env id i w a found in
      (
        returned,
        one_done i a,
        set-Settled w (credit_copy env id i w).1 a (one_done i a) 1 acc jobs (settled-one_done i a)
            (expected-one_done i a),
      )
  settle_copy-Settles false i image w a found =
      let failed = fail_copy-acc env id k i w a found in
      Settles-trans (fail_copy env id i) (mark_partial env id) w a 1 0
        (
          ap (λ x. x.0) failed,
          one_failed i a,
          set-Settled w (fail_copy env id i w).1 a (one_failed i a) 1 (ap (λ x. x.1.acc) failed)
              (ap (λ x. x.1.spool.jobs) failed) (settled-one_failed i a) (expected-one_failed i a),
        )
        (λ b u there. mark_partial-Settles u b there)

  pub settle_labels-Settles :
      (is_ok : Bool) (pls : List PendingLabel) (w : World) (a : JobAcc)
      → All (λ pl. pl.job_id ≡ id) pls
      → dict_get id w.acc ≡ some a
      → Settles (settle_labels env is_ok pls) w a (length pls)
  unfolding settle_labels
  settle_labels-Settles is_ok [] w a h found = (
    refl,
    a,
    record {
      found = found;
      more = omega arith;
      total = refl;
      jobs_same = refl;
      others = λ other. refl;
    },
  )
  settle_labels-Settles is_ok (pl ∷ pls) w a (mine, all) found =
      subst (λ n. Settles (settle_labels env is_ok (pl ∷ pls)) w a n) (omega arith)
        (Settles-trans (settle_label env is_ok pl) (settle_labels env is_ok pls) w a 1 (length pls)
          (subst
            (λ j.
              Settles
                (settle_label env is_ok
                  (record { job_id = j; label_index = pl.label_index; image = pl.image }))
                w a 1)
            (sym mine) (settle_copy-Settles is_ok pl.label_index pl.image w a found))
          (λ b u there. settle_labels-Settles is_ok pls u b all there))
