-- ===== src/Tests/Render/Jobs.antt =====
-- The theorems on src/labelfab/render/__init__.py and presets.py at concrete inputs.
use labelfab.Common.{
  dict_get, ◌≡◌, ◌↔◌, refl, arith, true, false, List, [], ◌∷◌, none, some, length, ok, Dict, String,
}
use labelfab.Contract.{TapeSpec, auto, continuous, mm_to_px}
use labelfab.Contract.Elements.{qr, text}
use labelfab.Render.{Size, Strip, concat_strip}
use labelfab.Render.Text.{Text}
use labelfab.Render.Vertical.Stock.{first_of}
use labelfab.Render.Compose.{upright, turned_90, Drawable, Picture, compose, compose_portrait}
use labelfab.Render.Presets.{
  PresetContext, code_element, title_element, sub_element, qr_caption, location, get,
}
use labelfab.Render.Presets.Trees.{IsComplete, Builds, presets-build_iff}
use labelfab.Render.Job.{RenderConfig, LabelLayout, Factory, render_job, tree}
use labelfab.Render.Job.Strips.{sizes, render_job-joins}

abbrev bolt_vars : Dict String Text
bolt_vars = ("code", 65 ∷ 49 ∷ []) ∷ ("title", 66 ∷ []) ∷ []

abbrev bare : PresetContext
bare = record { qr_base_url = []; qr_quiet_zone = 4 }

presets-build_iff_example :
    (IsComplete bolt_vars bare
      ↔ Builds
          (qr (code_element bolt_vars bare)
            ∷ text (title_element bolt_vars 2)
            ∷ text (sub_element bolt_vars 1)
            ∷ [])
          (qr_caption bolt_vars bare))
    × (IsComplete bolt_vars bare
        ↔ Builds
            (text (title_element bolt_vars 1)
              ∷ text (sub_element bolt_vars 2)
              ∷ qr (code_element bolt_vars bare)
              ∷ [])
            (location bolt_vars bare))
presets-build_iff_example = presets-build_iff bolt_vars bare

abbrev tape : TapeSpec
tape = record { width_mm = 1218000; length_mm = auto; kind = continuous }

abbrev cfg : RenderConfig
cfg = record {
  qr_base_url = [];
  qr_quiet_zone = 4;
  preset_aliases = ("stock_item", "stock_item_vertical") ∷ [];
  vertical_flip = false;
}

abbrev bolt : LabelLayout
bolt = record {
  preset = some "qr_caption";
  vars = bolt_vars;
  elements = none;
  copies = 2;
  length_mm = auto;
}

abbrev nut : LabelLayout
nut = record bolt { preset = some "stock_item"; copies = 1 }

-- Ink is the size of the canvas.
abbrev wide : Drawable Size
wide = record { measure = λ w h. ok (200, 150); draw = λ s. ok s }

abbrev factory : Factory Size
factory = record { build = λ b. wide; vertical = λ i. wide; strip = λ t. t }

abbrev lying : Picture Size
lying = record {
  size = record { width = 200; height = 96 };
  ink = record { width = 200; height = 96 };
  turn = upright;
}

abbrev standing : Picture Size
standing = record {
  size = record { width = 150; height = 96 };
  ink = record { width = 96; height = 150 };
  turn = turned_90;
}

abbrev pictures : List (Picture Size)
pictures = lying ∷ lying ∷ standing ∷ []

-- The label of the second job entry stands, by the alias.
render_job-joins_example :
    (length pictures ≡ 3)
    × (s : Strip) × (concat_strip (sizes pictures) 203000 true ≡ ok s)
    × (s.height ≡ 96)
unfolding render_job qr_caption tree get dict_get compose compose_portrait mm_to_px first_of
render_job-joins_example =
    render_job-joins factory (bolt ∷ nut ∷ []) tape cfg pictures 203000 true refl (omega arith)
