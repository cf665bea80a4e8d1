-- ===== src/Agent/Submit/Strips.antt =====
-- `submit` of src/labelfab/agent/worker.py for a job whose labels go into the waiting strip.
use labelfab.Common.{
  ℕ, suc, ◌+◌, ◌≤◌, ◌≡◌, refl, sym, ◌∙◌, ap, subst, Bool, true, false, not, List, [], ◌∷◌, ◌++◌,
  map, String, string_eq, nat_eq, arith, append_assoc, append-nil, length-append, ok, beq_self,
  Result,
}
use labelfab.Agent.Coalescer.{
  Image, PendingLabel, Coalescer, accepts, with_label, add, is_full, length_mm, pixels_of,
  strip_length,
}
use labelfab.Agent.World.{Env, World, Exc, M, ◌>>◌, change}
use labelfab.Agent.Printing.Credits.{>>-ok}
use labelfab.Agent.Submit.{add_labels, add_pending, flush_if}

abbrev pub pending_of : String → ℕ × Image → PendingLabel
pending_of id (i, image) = record { job_id = id; label_index = i; image = image }

-- The strip with the labels behind those that wait.
abbrev pub joined : String → Coalescer → List (ℕ × Image) → Coalescer
joined id c queued = record c { pending = c.pending ++ map (pending_of id) queued }

pixels_of-append : (xs ys : List PendingLabel) → pixels_of (xs ++ ys) ≡ pixels_of xs + pixels_of ys
unfolding pixels_of
pixels_of-append [] ys = omega arith
pixels_of-append (x ∷ xs) ys = omega (arith, pixels_of-append xs ys)

-- A strip is as long as its labels and one separator more than there are labels.
strip_length_mono :
    (sep : ℕ) (xs ys : List PendingLabel) → strip_length sep xs ≤ strip_length sep (xs ++ ys)
strip_length_mono sep [] ys = omega arith
strip_length_mono sep (x ∷ xs) ys =
    rw (pixels_of-append (x ∷ xs) ys, length-append xs ys) (grind arith)

is_full-prefix :
    (c : Coalescer) (xs ys : List PendingLabel)
    → is_full (record c { pending = xs ++ ys }) ≡ false
    → is_full (record c { pending = xs }) ≡ false
unfolding is_full length_mm
is_full-prefix c xs ys h =
    ground (arith, length-append xs ys, strip_length_mono c.separator_mm xs ys)

-- A label more, while the strip with all of them is not full.
joined-next :
    (id : String) (c : Coalescer) (q : ℕ × Image) (queued : List (ℕ × Image)) (width now : ℕ)
    → is_full (joined id c (q ∷ queued)) ≡ false
    → (is_full (joined id (with_label c (pending_of id q) width now) queued) ≡ false)
      × (is_full (with_label c (pending_of id q) width now) ≡ false)
unfolding is_full length_mm
joined-next id c q queued width now fits =
    let all : is_full (record c {
      pending = (c.pending ++ (pending_of id q ∷ [])) ++ map (pending_of id) queued;
    })
        ≡ false =
      subst (λ pls. is_full (record c { pending = pls }) ≡ false)
        (sym (append_assoc c.pending (pending_of id q ∷ []) (map (pending_of id) queued))) fits in
    (all, is_full-prefix c (c.pending ++ (pending_of id q ∷ [])) (map (pending_of id) queued) all)

module _ (env : Env) (id : String) (width : ℕ) where
  -- What adding labels that all fit does: nothing is printed.
  pub record Added (queued : List (ℕ × Image)) (w : World) (x : Result Exc (Unit {0}) × World)
      : Type 0 where
    pub returned : x.0 ≡ ok tt
    pub strip_longer : x.1.coalescer.pending ≡ w.coalescer.pending ++ map (pending_of id) queued
    pub acc_same : x.1.acc ≡ w.acc
    pub spool_same : x.1.spool ≡ w.spool

  abbrev with_next : ℕ × Image → World → World
  with_next q w = record w {
    reads = suc w.reads;
    coalescer = with_label w.coalescer (pending_of id q) width (env.clock w.reads);
  }

  add_pending-next :
      (q : ℕ × Image) (w : World)
      → accepts w.coalescer width ≡ true
      → add_pending env (pending_of id q) width w ≡ with_next q w
  unfolding add
  add_pending-next (i, image) w fits = rw fits refl

  -- A test that fails flushes nothing.
  unflushed :
      (test : World → Bool) (k : M (Unit {0})) (w : World)
      → test w ≡ false
      → ((λ v. flush_if env (test v) v) >> k) w ≡ k w
  unflushed test k w fails =
      let quiet : flush_if env (test w) w ≡ (ok tt, w) = ap (λ b. flush_if env b w) fails in
      >>-ok (λ v. flush_if env (test v) v) k w (ap (λ x. x.0) quiet) ∙ ap (λ x. k x.1) quiet

  add_labels-next :
      (q : ℕ × Image) (queued : List (ℕ × Image)) (w : World)
      → accepts w.coalescer width ≡ true
      → is_full (with_label w.coalescer (pending_of id q) width (env.clock w.reads)) ≡ false
      → add_labels env id width (q ∷ queued) w ≡ add_labels env id width queued (with_next q w)
  unfolding add_labels
  add_labels-next (i, image) queued w fits room =
      let adds = change (add_pending env (pending_of id (i, image)) width) in
      let rest = add_labels env id width queued in
      let checked = (λ v. flush_if env (is_full v.coalescer) v) >> rest in
      unflushed (λ v. not (accepts v.coalescer width)) (adds >> checked) w (ap not fits)
      ∙ (ap checked (add_pending-next (i, image) w fits)
          ∙ unflushed (λ v. is_full v.coalescer) rest (with_next (i, image) w) room)

  pub add_labels-Added :
      (queued : List (ℕ × Image)) (w : World)
      → accepts w.coalescer width ≡ true
      → is_full (joined id w.coalescer queued) ≡ false
      → Added queued w (add_labels env id width queued w)
  unfolding add_labels accepts
  add_labels-Added [] w fits room = record {
    returned = refl;
    strip_longer = sym (append-nil w.coalescer.pending);
    acc_same = refl;
    spool_same = refl;
  }
  add_labels-Added (q ∷ queued) w fits room =
      let (later, now) = joined-next id w.coalescer q queued width (env.clock w.reads) room in
      let u = record w {
        reads = suc w.reads;
        coalescer = with_label w.coalescer (pending_of id q) width (env.clock w.reads);
      } in
      let rest = add_labels-Added queued u (beq_self width) later in
      subst (Added (q ∷ queued) w) (sym (add_labels-next q queued w fits now)) (record {
        returned = rest.returned;
        strip_longer =
            rest.strip_longer
            ∙ append_assoc w.coalescer.pending (pending_of id q ∷ []) (map (pending_of id) queued);
        acc_same = rest.acc_same;
        spool_same = rest.spool_same;
      })
