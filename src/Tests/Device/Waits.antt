-- ===== src/Tests/Device/Waits.antt =====
-- The theorem on `_await_completion` of src/labelfab/device/d30.py at a concrete input.
use labelfab.Common.{ℕ, ◌≡◌, Bool, true, false, leb, arith}
use labelfab.Device.Waits.{default_timing, budget, await_completion}
use labelfab.Device.Waits.Ends.{IsLasting, EndsWell, await_completion-ends}

-- The frame comes after about 3 s.
abbrev after_three : ℕ → Bool
after_three w = leb 182700 w

after_three-IsLasting : IsLasting after_three
after_three-IsLasting c w h done = ground arith

await_completion-ends_example :
    let w = await_completion default_timing after_three false 200 1 true in
    (false ≡ true → w ≡ budget default_timing 200 1 true)
    × (false ≡ false → EndsWell after_three (budget default_timing 200 1 true) w)
await_completion-ends_example =
    await_completion-ends default_timing after_three false 200 1 true after_three-IsLasting
