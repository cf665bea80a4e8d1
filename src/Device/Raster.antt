-- ===== src/Device/Raster.antt =====
-- src/labelfab/render/raster.py: `DeviceRaster`, a packed bitmap, and the check of its shape.
use labelfab.Common.{ℕ, ◌*◌, ◌/◌, ◌%◌, Bool, ◌&&◌, length, ◌==◌}
use labelfab.Device.Protocol.{Bytes}

pub record DeviceRaster : Type 0 where
  pub width_px : ℕ
  pub height_px : ℕ
  pub pixels : Bytes

abbrev pub width_bytes : DeviceRaster → ℕ
width_bytes r = r.width_px / 8

-- `__post_init__` raises where this is false.
unfoldable pub is_well_shaped : DeviceRaster → Bool
is_well_shaped r = r.width_px % 8 == 0 && length r.pixels == width_bytes r * r.height_px
