-- ===== src/Device/Parser/Pending.antt =====
-- `StatusParser.feed` of src/labelfab/device/responses.py: how many bytes it can hold back.
use labelfab.Common.{
  ℕ, zero, suc, ◌≤◌, ◌≡◌, true, false, List, [], ◌∷◌, ◌++◌, All, length, drop, arith, ok,
  Option-cases, Bool-cases, inl, inr, All-append,
}
use labelfab.Device.Protocol.{Bytes}
use labelfab.Device.Protocol.Calls.{IsByte}
use labelfab.Device.Tags.{TagSpec, PayloadLength, length_prefixed, fixed, spec_of}
use labelfab.Device.Tags.Table.{spec_of-fits, fits, fixed_fits}
use labelfab.Device.Parser.{StatusFrame, StatusParser, is_prefix, need, scan, scan_payload, feed}
use labelfab.Device.Parser.Parses.{Item, Parses, stop, skip, miss, hit, Parses-total, Parses-left}
use labelfab.Device.Parser.Chunks.{lenient, item_frames, count_items, feed-Parses}

All-drop : (n : ℕ) (b : Bytes) → All IsByte b → All IsByte (drop n b)
All-drop zero b h = h
All-drop (suc n) [] h = h
All-drop (suc n) (x ∷ b) h = All-drop n b h.1

Parses-IsByte : {b r : Bytes} {is : List Item} → Parses b is r → All IsByte b → All IsByte r
Parses-IsByte (stop e) h = h
Parses-IsByte {b} (skip n e d) h = Parses-IsByte d (All-drop n b h)
Parses-IsByte {b} (miss t e d) h = Parses-IsByte d (All-drop 2 b h)
Parses-IsByte {b} (hit f n e d) h = Parses-IsByte d (All-drop n b h)

payload_need :
    (t : ℕ) (s : TagSpec) (l : PayloadLength) (body : Bytes)
    → s.length ≡ l
    → fits s ≡ true
    → All IsByte body
    → scan_payload t s l body ≡ need
    → length body ≤ 255
unfolding scan_payload
payload_need t s length_prefixed [] e f h n = omega arith
payload_need t s length_prefixed (k ∷ body) e f h n = ground arith
payload_need t s (fixed k) body e f h n = ground (arith, fixed_fits s k)

need-short : (b : Bytes) → All IsByte b → scan b ≡ need → length b ≤ 257
unfolding scan
need-short [] h e = omega arith
need-short (x ∷ []) h e = omega arith
need-short (x ∷ t ∷ body) h e = elim (Bool-cases (is_prefix x)) [
  | inl p ↦ elim (Option-cases (spec_of t)) [
    | inl unspecified ↦ ground arith
    | inr (s, known) ↦ ground (arith, spec_of-fits t s, payload_need t s s.length body)
  ]
  | inr p ↦ ground arith
]

-- Fed bytes, a parser that skips unknown tags returns; it then holds back at most 257 bytes, a frame
-- that lacks its end.
pub feed-pending :
    (p : StatusParser) (input : Bytes)
    → p.strict ≡ false
    → All IsByte p.buf
    → All IsByte input
    → (frames : List StatusFrame) × (q : StatusParser) × (feed p input ≡ ok (frames, q))
      × (scan q.buf ≡ need)
      × (length q.buf ≤ 257)
feed-pending p input strict old new =
    let (is, r, d) = Parses-total (suc (length (p.buf ++ input))) (p.buf ++ input) (omega arith) in
    let short =
      need-short r (Parses-IsByte d (All-append IsByte p.buf input old new)) (Parses-left d) in
    (
      item_frames is,
      lenient (count_items is p.unknown_tags) r,
      feed-Parses p input strict d,
      Parses-left d,
      short,
    )
