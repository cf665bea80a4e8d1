-- ===== src/Device/Waits/Ends.antt =====
-- How `_await_completion` of src/labelfab/device/d30.py ends.
use labelfab.Common.{
  ℕ, zero, suc, ◌+◌, ◌-◌, ◌*◌, ◌≤◌, ◌<◌, ◌≡◌, refl, ◌⊎◌, inl, inr, min, arith, Bool, true, false,
  ◌||◌, not, ltb, leb, leb→le, leb→lt, ltb→le, Bool-cases,
}
use labelfab.Device.Waits.{Timing, completion_poll, budget, poll, rounds_for, await_completion}

-- What has arrived stays.
abbrev pub IsLasting : (ℕ → Bool) → Type 0
IsLasting completed = (c w : ℕ) → c ≤ w → completed c ≡ true → completed w ≡ true

-- A wait that ends: by the limit or by the frame, and less than a poll after the frame.
abbrev pub EndsWell : (ℕ → Bool) → ℕ → ℕ → Type 0
EndsWell completed limit w =
    (w ≤ limit)
    × ((w ≡ limit) ⊎ (completed w ≡ true))
    × ((c : ℕ) → completed c ≡ true → w < c + completion_poll)

module _ (completed : ℕ → Bool) (lasting : IsLasting completed) (limit : ℕ) where
  -- What has not arrived yet arrives later.
  after : (c w : ℕ) → completed c ≡ true → completed w ≡ false → w < c
  after c w done missing = elim (Bool-cases (leb c w)) [
    | inl early ↦ absurd (contradiction (lasting c w (leb→le c w early) done))
    | inr later ↦ leb→lt c w later
  ]
    where
      contradiction : completed w ≡ true → ⊥
      contradiction arrived = cc

  poll-EndsWell :
      (rounds waited : ℕ)
      → waited ≤ limit
      → limit ≤ waited + rounds * completion_poll
      → ((c : ℕ) → completed c ≡ true → waited < c + completion_poll)
      → EndsWell completed limit (poll completed limit rounds waited)
  unfolding poll
  poll-EndsWell zero waited h k soon = (h, inl (omega arith), soon)
  poll-EndsWell (suc rounds) waited h k soon = elim (Bool-cases (ltb waited limit)) [
    | inr over ↦ rw over (h, inl (omega (arith, ltb→le waited limit over)), soon)
    | inl more ↦ elim (Bool-cases (completed waited)) [
      | inl arrived ↦ rw (more, arrived) (h, inr arrived, soon)
      | inr missing ↦
          rw (more, missing)
            (poll-EndsWell rounds (waited + min completion_poll (limit - waited)) (omega arith)
              (omega arith) (λ c done. omega (arith, after c waited done missing)))
    ]
  ]

-- A print that is confirmed once stays confirmed. Then a wait on a link that has told something, and
-- with the setting on, ends: not after the budget, at the budget or with the confirmation, and less
-- than a poll after it. On a silent link, or with the setting off, the whole budget is waited.
pub await_completion-ends :
    (t : Timing) (completed : ℕ → Bool) (silent : Bool) (height_px copies : ℕ) (feeding : Bool)
    → IsLasting completed
    → let limit = budget t height_px copies feeding in
      let w = await_completion t completed silent height_px copies feeding in
      ((not t.await_print_complete || silent) ≡ true → w ≡ limit)
      × ((not t.await_print_complete || silent) ≡ false → EndsWell completed limit w)
unfolding await_completion
await_completion-ends t completed silent height copies feeding lasting =
    let limit = budget t height copies feeding in
    (
      λ unpolled. rw unpolled refl,
      λ polled. rw polled (
          poll-EndsWell completed lasting limit (rounds_for limit) 0 (omega arith) (omega arith)
            (λ c done. omega arith)),
    )
