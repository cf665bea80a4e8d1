-- ===== src/Tests/Cli.antt =====
-- The theorems on src/labelfab/cli.py at concrete inputs.
use labelfab.Common.{◌+◌, ◌/◌, ◌==◌, arith, ◌≡◌, refl, [], ◌∷◌, if◌then◌else◌}
use labelfab.Common.{
  ℕ, Bool, ◌*◌, ◌%◌, ◌&&◌, ◌||◌, false, true, leb, ℤ, pos, negsuc, to_nat, ok, err,
}
use labelfab.Contract.{continuous}
use labelfab.Device.Protocol.{call, value_bytes}
use labelfab.Device.Session.{session_setup}
use labelfab.Device.Raster.{is_well_shaped}
use labelfab.Device.Driver.{print_raster}
use labelfab.Device.Framing.{print_preamble}
use labelfab.Device.Patterns.{
  Fill, outlined, filled, Corners, Pencil, bad_box, head_width_probe, self_test,
}
use labelfab.Cli.Probe.{ProbeArgs, cmd_probe}
use labelfab.Render.{Size}
use labelfab.Cli.Preview.{colours, half_block, reset, newline, Grey, shrunk, scaled, ansi}
use labelfab.Cli.Preview.Screens.{screen, upto_from, blocks, all_changes, codes, ansi-screen}

-- Two columns and three rows: the left column dark, the right one light.
abbrev stripes : Grey
stripes x y = if x == 0 then 0 else 255

abbrev small : Size
small = record { width = 2; height = 3 }

stripes_printed :
    ansi (λ s. stripes) stripes small 1
    ≡ colours 30 40
      ∷ half_block
      ∷ colours 97 107
      ∷ half_block
      ∷ reset
      ∷ newline
      ∷ colours 30 107
      ∷ half_block
      ∷ colours 97 107
      ∷ half_block
      ∷ reset
      ∷ []
unfolding ansi
stripes_printed = refl

ansi-screen_example :
    (screen (ansi (λ s. stripes) stripes small 1)
      ≡ upto_from 0
          (((shrunk 1 small).height + 1) / 2)
          (blocks (scaled (λ s. stripes) stripes 1 small) (shrunk 1 small)))
    × (codes (ansi (λ s. stripes) stripes small 1)
        ≡ all_changes (screen (ansi (λ s. stripes) stripes small 1)))
ansi-screen_example = ansi-screen (λ s. stripes) stripes small 1 (omega arith)

record Bitmap : Type 0 where
  width : ℕ
  height : ℕ
  is_black : ℕ → ℕ → Bool

-- Whether `n` is in `a, …, b`.
abbrev is_within : ℕ → ℕ → ℕ → Bool
is_within a b n = leb a n && leb n b

abbrev is_in_box : Corners → ℕ → ℕ → Bool
is_in_box c x y = is_within c.x0 (to_nat c.x1) x && is_within c.y0 (to_nat c.y1) y

abbrev is_on_edge : Corners → ℕ → ℕ → Bool
is_on_edge c x y =
    is_in_box c x y && ((x == c.x0 || x == to_nat c.x1) || (y == c.y0 || y == to_nat c.y1))

abbrev drawn : (ℕ → ℕ → Bool) → Bitmap → Bitmap
drawn ink b = record b { is_black = λ x y. ink x y || b.is_black x y }

abbrev boxed : Fill → Corners → Bitmap → Bitmap
boxed filled c b = drawn (is_in_box c) b
boxed outlined c b = drawn (is_on_edge c) b

-- A box is refused when its right or lower edge is before its left or upper one.
abbrev is_ordered : ℕ → ℤ → Bool
is_ordered a (pos b) = leb a b
is_ordered a (negsuc b) = false

abbrev is_proper : Corners → Bool
is_proper c = is_ordered c.x0 c.x1 && is_ordered c.y0 c.y1

abbrev bit_value : Bool → ℕ → ℕ
bit_value b n = if b then n else 0

abbrev byte_at : Bitmap → ℕ → ℕ → ℕ
byte_at b x y =
    bit_value (b.is_black x y) 128
    + bit_value (b.is_black (x + 1) y) 64
    + bit_value (b.is_black (x + 2) y) 32
    + bit_value (b.is_black (x + 3) y) 16
    + bit_value (b.is_black (x + 4) y) 8
    + bit_value (b.is_black (x + 5) y) 4
    + bit_value (b.is_black (x + 6) y) 2
    + bit_value (b.is_black (x + 7) y) 1

abbrev bitmaps : Pencil
bitmaps = record {
  Image = Bitmap;
  blank = λ w h. record { width = w; height = h; is_black = λ x y. false };
  rectangle = λ fill c b. if is_proper c then ok (boxed fill c b) else err bad_box;
  line = λ c b. drawn (is_in_box c) b;
  tobytes = λ b.
      let stride = b.width / 8 in
      upto_from 0 (stride * b.height) (λ i. byte_at b (8 * (i % stride)) (i / stride));
}

abbrev bring_up : ProbeArgs
bring_up = record {
  tape = continuous;
  width_px = 16;
  length_px = 10;
  pace_sweep = [];
  strip = 0;
  measure_waste = false;
  self_test = true;
  width_sweep = [];
  length_sweep = [];
  head_width = false;
}

-- The head probe at two columns of bytes: the steps, then the bar.
stairs_drawn :
    head_width_probe bitmaps 16 1
    ≡ ok (record {
      width_px = 16;
      height_px = 7;
      pixels = 254 ∷ 254 ∷ 254 ∷ 254 ∷ 0 ∷ 254 ∷ 255 ∷ 255 ∷ 255 ∷ 255 ∷ 255 ∷ 255 ∷ 255 ∷ 255 ∷ [];
    })
unfolding head_width_probe is_well_shaped
stairs_drawn = refl

bring_up_done : (cmd_probe bitmaps bring_up).status ≡ ok 0
unfolding cmd_probe session_setup call value_bytes self_test is_well_shaped print_raster
    print_preamble
bring_up_done = refl
