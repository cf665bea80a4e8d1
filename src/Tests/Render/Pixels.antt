-- ===== src/Tests/Render/Pixels.antt =====
-- The theorems on `to_device` of src/labelfab/render/raster.py with pictures that are functions.
use labelfab.Common.{
  ℕ, zero, suc, ◌+◌, ◌-◌, ◌*◌, ◌/◌, ◌%◌, ◌^◌, ◌≤◌, ◌<◌, ◌≡◌, refl, ap, ◌∙◌, arith, Bool, true,
  false, List, [], ◌∷◌, length, get_or, leb, ◌==◌, if◌then◌else◌, ok, err,
}
use labelfab.Device.Protocol.{Bytes}
use labelfab.Device.Raster.{DeviceRaster}
use labelfab.Render.{Size}
use labelfab.Render.Device.{Pillow, bit_at, three_quarters, bad_shape, to_device}
use labelfab.Render.Device.Laws.{Documented, exchanged}
use labelfab.Render.Device.Pixels.{Burns, to_device-Burns}

record Pixmap : Type 0 where
  size : Size
  level : ℕ → ℕ → ℕ

abbrev bit : Bool → ℕ
bit true = 1
bit false = 0

byte : (ℕ → Bool) → ℕ
byte g =
    bit (g 0) * 128
    + bit (g 1) * 64
    + bit (g 2) * 32
    + bit (g 3) * 16
    + bit (g 4) * 8
    + bit (g 5) * 4
    + bit (g 6) * 2
    + bit (g 7)

tabulate : ℕ → ℕ → (ℕ → ℕ) → List ℕ
tabulate k zero f = []
tabulate k (suc n) f = f k ∷ tabulate (suc k) n f

length-tabulate : (k n : ℕ) (f : ℕ → ℕ) → length (tabulate k n f) ≡ n
unfolding tabulate
length-tabulate k zero f = refl
length-tabulate k (suc n) f = ap suc (length-tabulate (suc k) n f)

get_or-tabulate : (k n i : ℕ) (f : ℕ → ℕ) → i < n → get_or (tabulate k n f) i 0 ≡ f (k + i)
unfolding tabulate
get_or-tabulate k zero i f h = absurd (omega arith)
get_or-tabulate k (suc n) zero f h = ap f (omega arith)
get_or-tabulate k (suc n) (suc i) f h =
    get_or-tabulate (suc k) n i f (omega arith) ∙ ap f (omega arith)

bit-le : (b : Bool) → bit b ≤ 1
bit-le true = omega arith
bit-le false = omega arith

bits-le :
    (g : ℕ → Bool)
    → (bit (g 0) ≤ 1)
      × (bit (g 1) ≤ 1)
      × (bit (g 2) ≤ 1)
      × (bit (g 3) ≤ 1)
      × (bit (g 4) ≤ 1)
      × (bit (g 5) ≤ 1)
      × (bit (g 6) ≤ 1)
      × (bit (g 7) ≤ 1)
bits-le g = (bit-le _, bit-le _, bit-le _, bit-le _, bit-le _, bit-le _, bit-le _, bit-le _)

bit-eq : (b : Bool) (n : ℕ) → n ≡ bit b → (n == 1) ≡ b
bit-eq true n h = ground arith
bit-eq false n h = ground arith

bit-byte : (g : ℕ → Bool) (j : ℕ) → j < 8 → byte g / 2 ^ (7 - j) % 2 ≡ bit (g j)
unfolding byte
bit-byte g zero h = omega (arith, bits-le g)
bit-byte g (suc zero) h = omega (arith, bits-le g)
bit-byte g (suc (suc zero)) h = omega (arith, bits-le g)
bit-byte g (suc (suc (suc zero))) h = omega (arith, bits-le g)
bit-byte g (suc (suc (suc (suc zero)))) h = omega (arith, bits-le g)
bit-byte g (suc (suc (suc (suc (suc zero))))) h = omega (arith, bits-le g)
bit-byte g (suc (suc (suc (suc (suc (suc zero)))))) h = omega (arith, bits-le g)
bit-byte g (suc (suc (suc (suc (suc (suc (suc zero))))))) h = omega (arith, bits-le g)
bit-byte g (suc (suc (suc (suc (suc (suc (suc (suc j)))))))) h = absurd (omega arith)

-- The byte `k` of the packed rows, `s` to a row.
abbrev dot : Pixmap → ℕ → ℕ → Bool
dot i x y = i.level x y == 255

packed_byte : Pixmap → ℕ → ℕ → ℕ
packed_byte i s k = byte (λ j. dot i (8 * (k % s) + j) (k / s))

pack : Pixmap → Bytes
pack i = let s = i.size.width / 8 in tabulate 0 (s * i.size.height) (packed_byte i s)

row_of : (y q s : ℕ) → q < s → (y * s + q) / s ≡ y
row_of y q s h = grind arith

column_of : (y q s : ℕ) → q < s → (y * s + q) % s ≡ q
column_of y q s h = grind arith

in_rows : (y q s h : ℕ) → y < h → q < s → y * s + q < s * h
in_rows y q s h a b = grind arith

abbrev of_size : Size → (ℕ → ℕ → ℕ) → Pixmap
of_size s f = record { size = s; level = f }

abbrev pixmaps : Pillow
pixmaps = record {
  Image = Pixmap;
  size = λ i. i.size;
  level = λ i. i.level;
  grey = λ i. i;
  invert = λ i. of_size i.size (λ x y. 255 - i.level x y);
  point = λ f i. of_size i.size (λ x y. f (i.level x y));
  to_bits = λ i. of_size i.size (λ x y. if leb 128 (i.level x y) then 255 else 0);
  to_dithered = λ i. i;
  rotate_90 = λ i. of_size (exchanged i.size) (λ x y. i.level (i.size.width - 1 - y) x);
  rotate_180 = λ i. of_size i.size (λ x y. i.level (i.size.width - 1 - x) (i.size.height - 1 - y));
  rotate_270 = λ i. of_size (exchanged i.size) (λ x y. i.level y (i.size.height - 1 - x));
  flip_left_right = λ i. of_size i.size (λ x y. i.level (i.size.width - 1 - x) y);
  tobytes = pack;
}

bit-pack :
    (i : Pixmap) (x y : ℕ)
    → i.size.width % 8 ≡ 0
    → x < i.size.width
    → y < i.size.height
    → bit_at (pack i) (i.size.width / 8) x y ≡ dot i x y
unfolding pack packed_byte
bit-pack i x y whole in_row in_column =
    let s = i.size.width / 8 in
    let k = y * s + x / 8 in
    let inside : x / 8 < s = omega (arith, whole) in
    let g = λ (j : ℕ). dot i (8 * (k % s) + j) (k / s) in
    let read : get_or (pack i) k 0 ≡ byte g =
      get_or-tabulate 0 (s * i.size.height) k (packed_byte i s)
        (in_rows y (x / 8) s i.size.height in_column inside)
      ∙ ap (packed_byte i s) (omega arith) in
    let column : 8 * (k % s) + x % 8 ≡ x = omega (arith, column_of y (x / 8) s inside) in
    bit-eq (dot i x y) _ (
      ap (λ n. n / 2 ^ (7 - x % 8) % 2) read
      ∙ (bit-byte g (x % 8) (omega arith)
          ∙ (ap (λ u. bit (dot i u (k / s))) column
              ∙ ap (λ v. bit (dot i x v)) (row_of y (x / 8) s inside))))

pixmaps-Documented : Documented pixmaps
unfolding pack
pixmaps-Documented = record {
  size-grey = λ i. refl;
  size-invert = λ i. refl;
  size-point = λ f i. refl;
  size-to_bits = λ i. refl;
  size-rotate_90 = λ i. refl;
  size-rotate_180 = λ i. refl;
  size-rotate_270 = λ i. refl;
  size-flip = λ i. refl;
  level-grey = λ i x y. refl;
  level-invert = λ i x y. refl;
  level-point = λ f i x y. refl;
  level-to_bits = λ i x y. refl;
  level-rotate_90 = λ i x y. refl;
  level-rotate_180 = λ i x y. refl;
  level-rotate_270 = λ i x y. refl;
  level-flip = λ i x y. refl;
  length-tobytes = λ i whole. length-tabulate 0 (i.size.width / 8 * i.size.height) _;
  bit-tobytes = bit-pack;
}

-- A label of 30 columns on tape of 96 dots, with a black stroke across.
abbrev stroke : Pixmap
stroke = of_size (record { width = 30; height = 96 }) (λ x y. if x == 5 then 0 else 255)

to_device-Burns_example :
    (true ≡ false → to_device pixmaps stroke 270 true 128 false ≡ err bad_shape)
    × (true ≡ true
        → (frame : DeviceRaster) × (to_device pixmaps stroke 270 true 128 false ≡ ok frame)
          × Burns pixmaps pixmaps-Documented three_quarters true 128 stroke frame)
to_device-Burns_example =
    to_device-Burns pixmaps pixmaps-Documented three_quarters 270 true 128 stroke refl
