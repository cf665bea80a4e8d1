-- ===== src/Device/Framing/Preamble.antt =====
-- `print_preamble` of src/labelfab/device/protocol.py: which frames have a preamble, byte for byte.
use labelfab.Common.{
  ℕ, ◌-◌, ◌/◌, ◌%◌, ◌≤◌, ◌<◌, ◌≡◌, ◌↔◌, ◌⊎◌, true, [], ◌∷◌, ◌++◌, arith, Option, none, some, ok,
  ltb, ◌==◌, if◌then◌else◌,
}
use labelfab.Device.Protocol.{
  Bytes, densities, one_of, value_bytes, call, paper_gap, paper_continuous,
}
use labelfab.Device.Framing.{print_preamble}

abbrev pub IsDensity : Option ℕ → Type 0
IsDensity none = Unit {0}
IsDensity (some d) = one_of d densities ≡ true

-- The frames that the protocol can express.
pub record IsPrintable (width_bytes height_px : ℕ) (density : Option ℕ) (copies head paper_type : ℕ)
    : Type 0 where
  pub width_pos : 0 < width_bytes
  pub width_fits : width_bytes ≤ 0xFFFF
  pub height_pos : 0 < height_px
  pub height_fits : height_px ≤ 0xFFFF
  pub density_known : IsDensity density
  pub copies_pos : 0 < copies
  pub copies_fit : copies ≤ 0xFF
  pub tape :
      ((paper_type ≡ paper_gap) × (head - width_bytes ≤ 0xFF))
      ⊎ ((paper_type ≡ paper_continuous) × (copies ≡ 1))

abbrev pub density_bytes : Option ℕ → ℕ → Bytes
density_bytes none p = []
density_bytes (some d) p = 0x1f ∷ 0x11 ∷ p ∷ 0x1f ∷ 0x11 ∷ 0x02 ∷ d ∷ []

-- `GS v 0`, then width and height in little-endian order
abbrev pub header_bytes : ℕ → ℕ → Bytes
header_bytes w h = 0x1d ∷ 0x76 ∷ 0x30 ∷ 0x00 ∷ (w % 256) ∷ (w / 256) ∷ (h % 256) ∷ (h / 256) ∷ []

abbrev pub gap_bytes : ℕ → ℕ → ℕ → Bytes
gap_bytes w copies head =
    0x1f
    ∷ 0x11
    ∷ 0x24
    ∷ (head - w)
    ∷ (if ltb 1 copies then 0x1f ∷ 0x11 ∷ 0x21 ∷ copies ∷ [] else [])

abbrev pub preamble_bytes : ℕ → ℕ → Option ℕ → ℕ → ℕ → ℕ → Bytes
preamble_bytes w h density copies head p =
    density_bytes density p
    ++ (if p == paper_gap
        then gap_bytes w copies head ++ (0x1b ∷ 0x40 ∷ 0x1f ∷ 0x11 ∷ 0x35 ∷ 0x00 ∷ header_bytes w h)
        else 0x1b ∷ 0x40 ∷ header_bytes w h)

-- A printable frame gets the preamble.
print_preamble-eq-ok :
    (w h : ℕ) (density : Option ℕ) (copies head p : ℕ)
    → IsPrintable w h density copies head p
    → print_preamble w h density copies head p ≡ ok (preamble_bytes w h density copies head p)
unfolding print_preamble call value_bytes
print_preamble-eq-ok w h none copies head p v = ground arith
print_preamble-eq-ok w h (some d) copies head p v = ground arith

print_preamble-IsPrintable :
    (w h : ℕ) (density : Option ℕ) (copies head p : ℕ) (out : Bytes)
    → print_preamble w h density copies head p ≡ ok out
    → IsPrintable w h density copies head p
unfolding print_preamble call value_bytes
print_preamble-IsPrintable w h none copies head p out e = ground arith
print_preamble-IsPrintable w h (some d) copies head p out e = ground arith

-- A preamble is built exactly for a printable frame, and it is the bytes of the vendor's order: the
-- tape type and density if a density is given, on die-cut tape the margin and for several copies
-- their number, `ESC @`, on die-cut tape the end of compression, then the `GS v 0` header.
pub print_preamble_iff :
    (w h : ℕ) (density : Option ℕ) (copies head p : ℕ) (out : Bytes)
    → (print_preamble w h density copies head p ≡ ok out)
      ↔ (IsPrintable w h density copies head p × (out ≡ preamble_bytes w h density copies head p))
print_preamble_iff w h density copies head p out = (
  λ e.
      let v = print_preamble-IsPrintable w h density copies head p out e in
      let sent = print_preamble-eq-ok w h density copies head p v in (v, cc),
  λ v. rw (v.1, print_preamble-eq-ok w h density copies head p v.0),
)
