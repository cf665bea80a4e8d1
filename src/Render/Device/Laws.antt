-- ===== src/Render/Device/Laws.antt =====
-- What Pillow documents of the operations that src/labelfab/render/raster.py uses, and where a dot of
-- a frame comes from. The levels outside a picture do not matter.
use labelfab.Common.{
  ℕ, ◌-◌, ◌*◌, ◌/◌, ◌%◌, ◌<◌, ◌≡◌, Bool, true, false, length, leb, ◌==◌, if◌then◌else◌,
}
use labelfab.Render.{Size}
use labelfab.Render.Device.{Pillow, bit_at, Rotation, none_at_all, quarter, half, three_quarters}

abbrev pub exchanged : Size → Size
exchanged s = record { width = s.height; height = s.width }

-- What Pillow documents of its operations. A picture that is packed has rows of whole bytes.
pub record Documented (p : Pillow) : Type 0 where
  pub size-grey : (i : p.Image) → p.size (p.grey i) ≡ p.size i
  pub size-invert : (i : p.Image) → p.size (p.invert i) ≡ p.size i
  pub size-point : (f : ℕ → ℕ) (i : p.Image) → p.size (p.point f i) ≡ p.size i
  pub size-to_bits : (i : p.Image) → p.size (p.to_bits i) ≡ p.size i
  pub size-rotate_90 : (i : p.Image) → p.size (p.rotate_90 i) ≡ exchanged (p.size i)
  pub size-rotate_180 : (i : p.Image) → p.size (p.rotate_180 i) ≡ p.size i
  pub size-rotate_270 : (i : p.Image) → p.size (p.rotate_270 i) ≡ exchanged (p.size i)
  pub size-flip : (i : p.Image) → p.size (p.flip_left_right i) ≡ p.size i
  pub level-grey : (i : p.Image) (x y : ℕ) → p.level (p.grey i) x y ≡ p.level i x y
  pub level-invert : (i : p.Image) (x y : ℕ) → p.level (p.invert i) x y ≡ 255 - p.level i x y
  pub level-point :
      (f : ℕ → ℕ) (i : p.Image) (x y : ℕ) → p.level (p.point f i) x y ≡ f (p.level i x y)
  pub level-to_bits :
      (i : p.Image) (x y : ℕ)
      → p.level (p.to_bits i) x y ≡ (if leb 128 (p.level i x y) then 255 else 0)
  pub level-rotate_90 :
      (i : p.Image) (x y : ℕ) → p.level (p.rotate_90 i) x y ≡ p.level i ((p.size i).width - 1 - y) x
  pub level-rotate_180 :
      (i : p.Image) (x y : ℕ)
      → p.level (p.rotate_180 i) x y
        ≡ p.level i ((p.size i).width - 1 - x) ((p.size i).height - 1 - y)
  pub level-rotate_270 :
      (i : p.Image) (x y : ℕ)
      → p.level (p.rotate_270 i) x y ≡ p.level i y ((p.size i).height - 1 - x)
  pub level-flip :
      (i : p.Image) (x y : ℕ)
      → p.level (p.flip_left_right i) x y ≡ p.level i ((p.size i).width - 1 - x) y
  pub length-tobytes :
      (i : p.Image)
      → (p.size i).width % 8 ≡ 0
      → length (p.tobytes i) ≡ (p.size i).width / 8 * (p.size i).height
  pub bit-tobytes :
      (i : p.Image) (x y : ℕ)
      → (p.size i).width % 8 ≡ 0
      → x < (p.size i).width
      → y < (p.size i).height
      → bit_at (p.tobytes i) ((p.size i).width / 8) x y ≡ (p.level i x y == 255)

-- The size of the frame, and the place in the landscape picture of the dot in a column and a row.
abbrev pub frame_size : Rotation → Size → Size
frame_size none_at_all s = s
frame_size quarter s = exchanged s
frame_size half s = s
frame_size three_quarters s = exchanged s

abbrev pub unturned : Rotation → Size → ℕ → ℕ → ℕ × ℕ
unturned none_at_all s x y = (x, y)
unturned quarter s x y = (s.width - 1 - y, x)
unturned half s x y = (s.width - 1 - x, s.height - 1 - y)
unturned three_quarters s x y = (y, s.height - 1 - x)

abbrev pub unmirrored : Bool → ℕ → ℕ → ℕ
unmirrored true w x = w - 1 - x
unmirrored false w x = x

abbrev pub source : Rotation → Bool → Size → ℕ → ℕ → ℕ × ℕ
source r mirror s x y = unturned r s (unmirrored mirror (frame_size r s).width x) y
