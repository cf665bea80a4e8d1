-- ===== src/Render/Device/Pixels.antt =====
-- What src/labelfab/render/raster.py burns: each dot of the frame, and when there is a frame.
use labelfab.Common.{
  ℕ, ◌-◌, ◌/◌, ◌%◌, ◌<◌, ◌≡◌, refl, ap, ◌∙◌, arith, Bool, true, false, some, leb, ◌==◌, ok, err,
  if◌then◌else◌,
}
use labelfab.Device.Raster.{DeviceRaster, is_well_shaped}
use labelfab.Render.Device.{
  Pillow, bit_at, bad_shape, Rotation, none_at_all, quarter, half, three_quarters, rotation_of,
  cut_off, to_bilevel, transposed, mirrored, packed, device_raster, turned_to_device, to_device,
}
use labelfab.Common.{==→eq}
use labelfab.Render.Device.Laws.{Documented, frame_size, unturned, unmirrored, source}

module _ (p : Pillow) (d : Documented p) where
  open p use {Image, size, level}
  open d use {
    size-grey, size-invert, size-point, size-to_bits, size-rotate_90, size-rotate_180,
    size-rotate_270, size-flip, level-grey, level-invert, level-point, level-to_bits,
    level-rotate_90, level-rotate_180, level-rotate_270, level-flip, length-tobytes, bit-tobytes,
  }

  size-to_bilevel : (i : Image) (threshold : ℕ) → size (to_bilevel p i threshold false) ≡ size i
  unfolding to_bilevel
  size-to_bilevel i t =
      size-to_bits _ ∙ (size-point (cut_off p t) _ ∙ (size-invert _ ∙ size-grey i))

  -- A dot is burnt where the picture is dark enough.
  level-to_bilevel :
      (i : Image) (threshold x y : ℕ)
      → (level (to_bilevel p i threshold false) x y == 255) ≡ leb threshold (255 - level i x y)
  unfolding to_bilevel
  level-to_bilevel i t x y = ground (
    arith,
    level-to_bits (p.point (cut_off p t) (p.invert (p.grey i))) x y,
    level-point (cut_off p t) (p.invert (p.grey i)) x y,
    level-invert (p.grey i) x y,
    level-grey i x y,
  )

  size-transposed : (r : Rotation) (i : Image) → size (transposed p r i) ≡ frame_size r (size i)
  size-transposed none_at_all i = refl
  size-transposed quarter i = size-rotate_90 i
  size-transposed half i = size-rotate_180 i
  size-transposed three_quarters i = size-rotate_270 i

  size-mirrored : (mirror : Bool) (i : Image) → size (mirrored p mirror i) ≡ size i
  size-mirrored true i = size-flip i
  size-mirrored false i = refl

  level-transposed :
      (r : Rotation) (i : Image) (x y : ℕ)
      → level (transposed p r i) x y ≡ (let (u, v) = unturned r (size i) x y in level i u v)
  level-transposed none_at_all i x y = refl
  level-transposed quarter i x y = level-rotate_90 i x y
  level-transposed half i x y = level-rotate_180 i x y
  level-transposed three_quarters i x y = level-rotate_270 i x y

  level-mirrored :
      (mirror : Bool) (i : Image) (x y : ℕ)
      → level (mirrored p mirror i) x y ≡ level i (unmirrored mirror (size i).width x) y
  level-mirrored true i x y = level-flip i x y
  level-mirrored false i x y = refl

  -- The shape is right exactly when a row is a whole number of bytes.
  is_well_shaped-packed : (i : Image) → is_well_shaped (packed p i) ≡ ((size i).width % 8 == 0)
  unfolding is_well_shaped
  is_well_shaped-packed i = ground (arith, length-tobytes i)

  -- The picture that is packed.
  abbrev final : Rotation → Bool → ℕ → Image → Image
  final r mirror threshold i = mirrored p mirror (transposed p r (to_bilevel p i threshold false))

  size-final :
      (r : Rotation) (mirror : Bool) (t : ℕ) (i : Image)
      → size (final r mirror t i) ≡ frame_size r (size i)
  size-final r mirror t i =
      size-mirrored mirror _ ∙ (size-transposed r _ ∙ ap (frame_size r) (size-to_bilevel i t))

  level-final :
      (r : Rotation) (mirror : Bool) (t : ℕ) (i : Image) (x y : ℕ)
      → (level (final r mirror t i) x y == 255)
        ≡ (let (u, v) = source r mirror (size i) x y in leb t (255 - level i u v))
  level-final r mirror t i x y =
      let b = to_bilevel p i t false in
      let width : (size (transposed p r b)).width ≡ (frame_size r (size i)).width =
        ap (λ s. s.width) (size-transposed r b ∙ ap (frame_size r) (size-to_bilevel i t)) in
      let x' = unmirrored mirror (frame_size r (size i)).width x in
      let (u, v) = source r mirror (size i) x y in
      ap (λ n. n == 255) (level-mirrored mirror (transposed p r b) x y)
      ∙ (ap (λ w. level (transposed p r b) (unmirrored mirror w x) y == 255) width
          ∙ (ap (λ n. n == 255) (level-transposed r b x' y)
              ∙ (ap (λ s. let (u', v') = unturned r s x' y in level b u' v' == 255)
                    (size-to_bilevel i t)
                  ∙ level-to_bilevel i t u v)))

  abbrev pub Burns : Rotation → Bool → ℕ → Image → DeviceRaster → Type 0
  Burns r mirror t i frame =
      (frame.width_px ≡ (frame_size r (size i)).width)
      × (frame.height_px ≡ (frame_size r (size i)).height)
      × ((x y : ℕ)
          → x < frame.width_px
          → y < frame.height_px
          → bit_at frame.pixels (frame.width_px / 8) x y
            ≡ (let (u, v) = source r mirror (size i) x y in leb t (255 - level i u v)))

  packed-Burns :
      (r : Rotation) (mirror : Bool) (t : ℕ) (i : Image)
      → (frame_size r (size i)).width % 8 ≡ 0
      → Burns r mirror t i (packed p (final r mirror t i))
  packed-Burns r mirror t i whole =
      let f = final r mirror t i in
      let sized = size-final r mirror t i in
      let bytes : (size f).width % 8 ≡ 0 = ap (λ s. s.width % 8) sized ∙ whole in
      (
        ap (λ s. s.width) sized,
        ap (λ s. s.height) sized,
        λ x y in_row in_column.
            bit-tobytes f x y bytes in_row in_column ∙ level-final r mirror t i x y,
      )

  to_device-final :
      (r : Rotation) (rotation : ℕ) (mirror : Bool) (t : ℕ) (i : Image)
      → rotation_of rotation ≡ some r
      → to_device p i rotation mirror t false ≡ device_raster p (final r mirror t i)
  unfolding to_device
  to_device-final r rotation mirror t i known =
      ap (λ o. turned_to_device p o (to_bilevel p i t false) mirror) known

  shape-final :
      (r : Rotation) (mirror : Bool) (t : ℕ) (i : Image)
      → is_well_shaped (packed p (final r mirror t i)) ≡ ((frame_size r (size i)).width % 8 == 0)
  shape-final r mirror t i =
      is_well_shaped-packed (final r mirror t i)
      ∙ ap (λ s. s.width % 8 == 0) (size-final r mirror t i)

-- With a rotation that is one of the four, a frame is made exactly when the rows of the turned picture
-- are whole bytes, and refused for its shape otherwise. The frame has the size of the turned picture,
-- and each dot is burnt exactly when the inverted level of the place in the landscape picture that it
-- comes from, through the mirror and the turn, reaches the threshold.
pub to_device-Burns :
    (p : Pillow) (d : Documented p) (r : Rotation) (rotation : ℕ) (mirror : Bool) (threshold : ℕ)
    (i : p.Image)
    → rotation_of rotation ≡ some r
    → let whole = (frame_size r (p.size i)).width % 8 == 0 in
      (whole ≡ false → to_device p i rotation mirror threshold false ≡ err bad_shape)
      × (whole ≡ true
          → (frame : DeviceRaster) × (to_device p i rotation mirror threshold false ≡ ok frame)
            × Burns p d r mirror threshold i frame)
to_device-Burns p d r rotation mirror t i known =
    let made = to_device-final p d r rotation mirror t i known in
    let shape = shape-final p d r mirror t i in
    let packs = packed p (final p d r mirror t i) in
    (
      λ broken. made ∙ ap (λ b. if b then ok packs else err bad_shape) (shape ∙ broken),
      λ whole. (
        packs,
        made ∙ ap (λ b. if b then ok packs else err bad_shape) (shape ∙ whole),
        packed-Burns p d r mirror t i (==→eq _ _ whole),
      ),
    )
