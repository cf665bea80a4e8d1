-- ===== src/Cli/Build.antt =====
-- src/labelfab/cli.py: `_build`, the picture of a job that the commands show, and `_open_transport`.
use labelfab.Common.{
  ℕ, ◌≡◌, ◌≤◌, refl, max, Bool, true, false, List, [], ◌∷◌, Option, String, string_eq,
  if◌then◌else◌, Result, ok, err,
}
use labelfab.Contract.{TapeSpec, mm_to_px}
use labelfab.Agent.Main.Factory.{Link, fake, serial, ble, afbluetooth, SystemExit, mac_required}
use labelfab.Render.{Strip, StripError, concat_strip}
use labelfab.Render.Compose.{Picture}
use labelfab.Render.Job.{Fault, RenderConfig, LabelLayout, Factory, render_job}
use labelfab.Render.Job.Strips.{sizes, copies, render_job-joins}

-- One label as it was rendered, or several joined into a strip.
pub data Built {ℓ} (Ink : Type ℓ) : Type ℓ where
  label : Picture Ink → Built Ink
  strip : Strip → Built Ink

pub data BuildError : Type 0 where
  rendering : Fault → BuildError
  joining : StripError → BuildError

module _ {ℓ} {Ink : Type ℓ} where
  abbrev pub joined : List (Picture Ink) → ℕ → Bool → Result BuildError (Built Ink)
  joined ps separator_mm bookends = elim (concat_strip (sizes ps) separator_mm bookends) [
    | ok s ↦ ok (strip s)
    | err e ↦ err (joining e)
  ]

  -- With `--discrete`: a lone label as it is.
  abbrev pub joined_plainly : List (Picture Ink) → ℕ → Result BuildError (Built Ink)
  joined_plainly (p ∷ []) separator_mm = ok (label p)
  joined_plainly ps separator_mm = joined ps separator_mm false

  unfoldable pub build :
      Factory Ink
      → List LabelLayout
      → TapeSpec
      → RenderConfig
      → ℕ
      → Bool
      → Result BuildError (Built Ink)
  build factory labels tape cfg separator_mm discrete = elim (render_job factory labels tape cfg) [
    | ok ps ↦ if discrete then joined_plainly ps separator_mm else joined ps separator_mm true
    | err e ↦ err (rendering e)
  ]

-- The arguments that choose the transport; an absent address is empty.
pub record LinkArgs : Type 0 where
  pub transport : String
  pub mac : String
  pub channel : ℕ
  pub port : String
  pub ble_write_uuid : String
  pub adapter : Option String

-- `_open_transport`
unfoldable pub transport_of : LinkArgs → Result SystemExit Link
transport_of a =
    if string_eq.beq a.transport "fake"
    then ok fake
    else if string_eq.beq a.transport "serial"
    then ok (serial a.port)
    else if string_eq.beq a.mac ""
    then err mac_required
    else if string_eq.beq a.transport "ble"
    then ok (ble a.mac a.ble_write_uuid a.adapter)
    else ok (afbluetooth a.mac a.channel)

abbrev height {ℓ} : {Ink : Type ℓ} → Built Ink → ℕ
height (label p) = p.size.height
height (strip s) = s.height

-- A job that renders, with a copy or more, and is not to be printed label by label, is shown as a
-- strip as high as the tape is wide.
build-shows {ℓ} :
    {Ink : Type ℓ} (factory : Factory Ink) (ls : List LabelLayout) (tape : TapeSpec)
    (cfg : RenderConfig) (ps : List (Picture Ink)) (separator_mm : ℕ)
    → render_job factory ls tape cfg ≡ ok ps
    → 1 ≤ copies ls
    → (b : Built Ink) × (build factory ls tape cfg separator_mm false ≡ ok b)
      × (height b ≡ max 1 (mm_to_px tape.width_mm))
unfolding build
build-shows factory ls tape cfg ps u rendered some_copy =
    let (counted, s, joins, high) =
      render_job-joins factory ls tape cfg ps u true rendered some_copy in
    (strip s, rw (build, rendered) (rw (joined, joins) refl), high)
