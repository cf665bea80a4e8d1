-- ===== src/Device/Feedback/Pieces.antt =====
-- `DeviceFeedback.ingest` of src/labelfab/device/feedback.py, on a stream that arrives in pieces.
use labelfab.Common.{
  ℕ, suc, ◌≡◌, refl, false, List, [], ◌∷◌, ◌++◌, arith, ok, ◌>>=◌, dict_get, length,
}
use labelfab.Device.Protocol.{Bytes}
use labelfab.Device.Tags.{ack, spec_of, tags}
use labelfab.Device.Parser.{StatusFrame, StatusParser, feed, scan}
use labelfab.Device.Parser.Chunks.{feed-append, lenient, feed-Parses, item_frames, count_items}
use labelfab.Device.Parser.Parses.{Parses-total}
use labelfab.Device.State.{DeviceState, ingest_frame}
use labelfab.Device.Feedback.{
  DeviceFeedback, new_feedback, bytes_eq, ingest_frames, Ingested, parse_input, ingest,
}

abbrev pub IsData : Bytes → Type 0
IsData b = bytes_eq b ack ≡ false

ingest-IsData : (fb : DeviceFeedback) (b : Bytes) → IsData b → ingest fb b ≡ parse_input fb b
unfolding ingest
ingest-IsData fb b h = rw h refl

ingest_frames-append :
    (s : DeviceState) (fs gs : List StatusFrame)
    → ingest_frames s (fs ++ gs) ≡ ingest_frames (ingest_frames s fs) gs
unfolding ingest_frames
ingest_frames-append s [] gs = refl
ingest_frames-append s (f ∷ fs) gs = ingest_frames-append (ingest_frame s f) fs gs

abbrev pub then_ingest : Ingested → Bytes → Ingested
then_ingest m b = m >>= λ x. (ingest x.1 b >>= λ y. ok (x.0 ++ y.0, y.1))

-- Two deliveries, neither of them nor their join the two bytes of an acknowledgement, leave the same
-- state and return the same frames as their join delivered at once.
pub ingest-append :
    (fb : DeviceFeedback) (a b : Bytes)
    → fb.parser.strict ≡ false
    → IsData a
    → IsData b
    → IsData (a ++ b)
    → ingest fb (a ++ b) ≡ then_ingest (ingest fb a) b
unfolding parse_input
ingest-append fb a b h da db dab =
    let p : StatusParser = fb.parser in
    let (is, r, d) = Parses-total (suc (length (p.buf ++ a))) (p.buf ++ a) (omega arith) in
    let q : StatusParser = lenient (count_items is p.unknown_tags) r in
    let (js, r', d') = Parses-total (suc (length (r ++ b))) (r ++ b) (omega arith) in
    let fb' : DeviceFeedback = record {
      state = ingest_frames fb.state (item_frames is);
      parser = q;
    } in
    rw
      (
        ingest-IsData fb (a ++ b) dab,
        ingest-IsData fb a da,
        feed-append p a b h,
        feed-Parses p a h d,
        ingest-IsData fb' b db,
        feed-Parses q b refl d',
        ingest_frames-append fb.state (item_frames is) (item_frames js),
      )
      refl

-- The first two bytes of a firmware report, then the next two, which are 1 and 1, then the last.
abbrev pub firmware_head : Bytes
firmware_head = 0x1a ∷ 0x07 ∷ []

-- Whatever its last byte, a firmware report 1.1.x that arrives cut around its first two numbers is
-- lost: they are counted as an acknowledgement and no frame is returned.
pub ingest_loses_report :
    (x : ℕ)
    → (then_ingest (then_ingest (ingest new_feedback firmware_head) ack) (x ∷ []) >>= λ y. ok y.0)
      ≡ ok []
unfolding ingest new_feedback feed scan spec_of tags dict_get
ingest_loses_report x = ground arith
