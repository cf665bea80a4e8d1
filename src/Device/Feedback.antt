-- ===== src/Device/Feedback.antt =====
-- src/labelfab/device/feedback.py: `DeviceFeedback`, which takes what the transport delivers.
pub mod Pieces
use labelfab.Common.{
  ℕ, ◌+◌, Bool, true, false, ◌&&◌, List, [], ◌∷◌, Option, none, some, Dict, dict_get, dict_set,
  nat_eq, ◌==◌, if◌then◌else◌, Result, ok, err, ◌>>=◌,
}
use labelfab.Device.Protocol.{Bytes}
use labelfab.Device.Tags.{ack}
use labelfab.Device.Parser.{StatusFrame, StatusParser, new_parser, feed, UnknownTag}
use labelfab.Device.State.{DeviceState, new_state, ingest_frame}

pub record DeviceFeedback : Type 0 where
  pub state : DeviceState
  pub parser : StatusParser

unfoldable pub new_feedback : DeviceFeedback
unfolding new_state new_parser
new_feedback = record { state = new_state; parser = new_parser }

-- `a == b` on byte strings
abbrev pub bytes_eq : Bytes → Bytes → Bool
bytes_eq [] [] = true
bytes_eq (x ∷ xs) (y ∷ ys) = x == y && bytes_eq xs ys
bytes_eq _ _ = false

-- `for f in frames: self.state.ingest(f)`
unfoldable pub ingest_frames : DeviceState → List StatusFrame → DeviceState
unfolding ingest_frame
ingest_frames s [] = s
ingest_frames s (f ∷ fs) = ingest_frames (ingest_frame s f) fs

abbrev pub Ingested : Type 0
Ingested = Result UnknownTag (List StatusFrame × DeviceFeedback)

unfoldable pub parse_input : DeviceFeedback → Bytes → Ingested
unfolding ingest_frames
parse_input fb input = feed fb.parser input >>= λ x.
    ok (x.0, record { state = ingest_frames fb.state x.0; parser = x.1 })

-- `DeviceFeedback.ingest`
unfoldable pub ingest : DeviceFeedback → Bytes → Ingested
unfolding parse_input
ingest fb input =
    if bytes_eq input ack
    then ok ([], record fb { state = record (fb.state) { acks = fb.state.acks + 1 } })
    else parse_input fb input

-- `fields`: the payload of the last frame of each tag
unfoldable pub fields_from : Dict ℕ Bytes → List StatusFrame → Dict ℕ Bytes
fields_from d [] = d
fields_from d (f ∷ fs) = fields_from (dict_set f.tag f.raw d) fs

unfoldable pub fields : DeviceFeedback → Dict ℕ Bytes
unfolding fields_from
fields fb = fields_from [] fb.state.frames
