-- ===== src/Render/Device.antt =====
-- src/labelfab/render/raster.py: `to_bilevel` and `to_device`, from a landscape picture in grey to the
-- frame of the printer. What Pillow does with a picture is a parameter, with its documentation as laws.
pub mod Laws
pub mod Pixels
use labelfab.Common.{
  ℕ, zero, suc, ◌+◌, ◌-◌, ◌*◌, ◌/◌, ◌%◌, ◌^◌, ◌≤◌, ◌<◌, ◌≡◌, Bool, true, false, List, [], ◌∷◌,
  Option, none, some, length, get_or, leb, ◌==◌, if◌then◌else◌, Result, ok, err, ◌>>=◌, ◌>>◌, guard,
}
use labelfab.Device.Protocol.{Bytes}
use labelfab.Device.Raster.{DeviceRaster, is_well_shaped}
use labelfab.Render.{Size}

-- Bit `x` of row `y`: eight to a byte, the highest first.
abbrev pub bit_at : Bytes → ℕ → ℕ → ℕ → Bool
bit_at bytes stride x y = get_or bytes (y * stride + x / 8) 0 / 2 ^ (7 - x % 8) % 2 == 1

-- Pictures of grey levels, column and row counted from the upper left corner; a picture of two
-- levels has 0 and 255. A turn is anticlockwise.
pub record Pillow : Type 1 where
  pub Image : Type 0
  pub size : Image → Size
  pub level : Image → ℕ → ℕ → ℕ
  pub grey : Image → Image
  pub invert : Image → Image
  pub point : (ℕ → ℕ) → Image → Image
  pub to_bits : Image → Image
  pub to_dithered : Image → Image
  pub rotate_90 : Image → Image
  pub rotate_180 : Image → Image
  pub rotate_270 : Image → Image
  pub flip_left_right : Image → Image
  pub tobytes : Image → Bytes

pub data RasterError : Type 0 where
  bad_rotation bad_shape : RasterError

-- `_ROTATIONS`
pub data Rotation : Type 0 where
  none_at_all quarter half three_quarters : Rotation

abbrev pub rotation_of : ℕ → Option Rotation
rotation_of n =
    if n == 0
    then some none_at_all
    else if n == 90
    then some quarter
    else if n == 180
    then some half
    else if n == 270
    then some three_quarters
    else none

module _ (p : Pillow) where
  open p use {
    Image, size, grey, invert, point, to_bits, to_dithered, rotate_90, rotate_180, rotate_270,
    flip_left_right, tobytes,
  }

  abbrev pub cut_off : ℕ → ℕ → ℕ
  cut_off threshold n = if leb threshold n then 255 else 0

  unfoldable pub to_bilevel : Image → ℕ → Bool → Image
  to_bilevel img threshold true = to_dithered (invert (grey img))
  to_bilevel img threshold false = to_bits (point (cut_off threshold) (invert (grey img)))

  abbrev pub transposed : Rotation → Image → Image
  transposed none_at_all i = i
  transposed quarter i = rotate_90 i
  transposed half i = rotate_180 i
  transposed three_quarters i = rotate_270 i

  abbrev pub mirrored : Bool → Image → Image
  mirrored true i = flip_left_right i
  mirrored false i = i

  abbrev pub packed : Image → DeviceRaster
  packed i = record { width_px = (size i).width; height_px = (size i).height; pixels = tobytes i }

  -- `DeviceRaster(…)` with the check of its shape
  abbrev pub device_raster : Image → Result RasterError DeviceRaster
  device_raster i = if is_well_shaped (packed i) then ok (packed i) else err bad_shape

  abbrev pub turned_to_device : Option Rotation → Image → Bool → Result RasterError DeviceRaster
  turned_to_device none i mirror = err bad_rotation
  turned_to_device (some r) i mirror = device_raster (mirrored mirror (transposed r i))

  unfoldable pub to_device : Image → ℕ → Bool → ℕ → Bool → Result RasterError DeviceRaster
  unfolding to_bilevel
  to_device landscape rotation mirror threshold dither =
      turned_to_device (rotation_of rotation) (to_bilevel landscape threshold dither) mirror
