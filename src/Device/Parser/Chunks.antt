-- ===== src/Device/Parser/Chunks.antt =====
-- `StatusParser.feed` of src/labelfab/device/responses.py, on a stream that arrives in pieces.
use labelfab.Common.{
  ℕ, zero, suc, ◌<◌, ◌≡◌, refl, ap, ◌∙◌, false, List, [], ◌∷◌, ◌++◌, length, length-drop, arith,
  Dict, Result, ok, ◌>>=◌, append_assoc, append-nil,
}
use labelfab.Device.Protocol.{Bytes}
use labelfab.Device.Parser.{
  StatusFrame, StatusParser, count_tag, try_scan, feed_loop, feed, UnknownTag,
}
use labelfab.Device.Parser.Scans.{scan-junk-append, scan-odd-append, scan-whole-append}
use labelfab.Device.Parser.Parses.{
  Item, frame, unknown, Parses, stop, skip, miss, hit, Parses-append, Parses-total,
}

-- A parser that skips unknown tags.
abbrev pub lenient : Dict ℕ ℕ → Bytes → StatusParser
lenient u b = record { strict = false; buf = b; unknown_tags = u }

abbrev pub item_frames : List Item → List StatusFrame
item_frames [] = []
item_frames (frame f ∷ is) = f ∷ item_frames is
item_frames (unknown t ∷ is) = item_frames is

abbrev pub count_items : List Item → Dict ℕ ℕ → Dict ℕ ℕ
count_items [] u = u
count_items (frame f ∷ is) u = count_items is u
count_items (unknown t ∷ is) u = count_items is (count_tag t u)

feed_loop-Parses :
    {b r : Bytes} {is : List Item}
    → Parses b is r
    → (fuel : ℕ) (u : Dict ℕ ℕ) (frames : List StatusFrame) → length b < fuel
    → feed_loop fuel (lenient u b) frames
      ≡ ok (frames ++ item_frames is, lenient (count_items is u) r)
unfolding feed_loop try_scan
feed_loop-Parses d zero u frames h = absurd (omega arith)
feed_loop-Parses (stop e) (suc fuel) u frames h = rw (e, feed_loop) (rw append-nil refl)
feed_loop-Parses {b} (skip zero e d) (suc fuel) u frames h =
    absurd (omega (arith, (scan-junk-append b [] zero e).0))
feed_loop-Parses {b} (skip (suc n) e d) (suc fuel) u frames h =
    rw (e, feed_loop)
      (rw append-nil (
        feed_loop-Parses d fuel u frames
          (omega (arith, length-drop {0} (suc n) b, (scan-junk-append b [] (suc n) e).1))))
feed_loop-Parses {b} (miss t e d) (suc fuel) u frames h =
    rw (e, feed_loop)
      (rw append-nil (
        feed_loop-Parses d fuel (count_tag t u) frames
          (omega (arith, length-drop {0} 2 b, (scan-odd-append b [] t e).0))))
feed_loop-Parses {b} (hit f zero e d) (suc fuel) u frames h =
    absurd (omega (arith, (scan-whole-append b [] f zero e).0))
feed_loop-Parses {b} {r} {is = frame _ ∷ is} (hit f (suc n) e d) (suc fuel) u frames h =
    rw (e, feed_loop)
      (feed_loop-Parses d fuel u (frames ++ (f ∷ []))
          (omega (arith, length-drop {0} (suc n) b, (scan-whole-append b [] f (suc n) e).1))
        ∙ ap (λ fs. ok (fs, lenient (count_items is u) r))
            (append_assoc frames (f ∷ []) (item_frames is)))

is_lenient : (p : StatusParser) → p.strict ≡ false → p ≡ lenient p.unknown_tags p.buf
is_lenient p h = λ i. record { strict = h i; buf = p.buf; unknown_tags = p.unknown_tags }

-- What `feed` returns, from the items of the buffer with the new bytes behind it.
pub feed-Parses :
    {r : Bytes} {is : List Item} (p : StatusParser) (input : Bytes)
    → p.strict ≡ false
    → Parses (p.buf ++ input) is r
    → feed p input ≡ ok (item_frames is, lenient (count_items is p.unknown_tags) r)
unfolding feed
feed-Parses {r} {is} p input h d =
    rw (is_lenient p h)
      (feed_loop-Parses d (suc (length (p.buf ++ input))) p.unknown_tags [] (omega arith))

item_frames-append : (is js : List Item) → item_frames (is ++ js) ≡ item_frames is ++ item_frames js
item_frames-append [] js = refl
item_frames-append (frame f ∷ is) js = ap (λ fs. f ∷ fs) (item_frames-append is js)
item_frames-append (unknown t ∷ is) js = item_frames-append is js

count_items-append :
    (is js : List Item) (u : Dict ℕ ℕ)
    → count_items (is ++ js) u ≡ count_items js (count_items is u)
count_items-append [] js u = refl
count_items-append (frame f ∷ is) js u = count_items-append is js u
count_items-append (unknown t ∷ is) js u = count_items-append is js (count_tag t u)

-- Two calls of `feed`, with the frames of the second behind those of the first.
abbrev pub Fed : Type 0
Fed = Result UnknownTag (List StatusFrame × StatusParser)

abbrev pub then_feed : Fed → Bytes → Fed
then_feed m b = m >>= λ x. (feed x.1 b >>= λ y. ok (x.0 ++ y.0, y.1))

pub feed-append :
    (p : StatusParser) (a b : Bytes) → p.strict ≡ false → feed p (a ++ b) ≡ then_feed (feed p a) b
feed-append p a b h =
    let (is, r, d) = Parses-total (suc (length (p.buf ++ a))) (p.buf ++ a) (omega arith) in
    let (js, r', d') = Parses-total (suc (length (r ++ b))) (r ++ b) (omega arith) in
    let q : StatusParser = lenient (count_items is p.unknown_tags) r in
    let both : Parses (p.buf ++ (a ++ b)) (is ++ js) r' =
      rw (← append_assoc p.buf a b) (Parses-append b d d') in
    rw
      (
        feed-Parses p (a ++ b) h both,
        feed-Parses p a h d,
        feed-Parses q b refl d',
        item_frames-append is js,
        count_items-append is js p.unknown_tags,
      )
      refl

-- The stream in pieces, each fed as it arrives.
abbrev pub feed_pieces : StatusParser → Bytes → List Bytes → Fed
feed_pieces p c [] = feed p c
feed_pieces p c (d ∷ ds) = feed p c >>= λ x. (feed_pieces x.1 d ds >>= λ y. ok (x.0 ++ y.0, y.1))

abbrev pub join_pieces : Bytes → List Bytes → Bytes
join_pieces c [] = c
join_pieces c (d ∷ ds) = c ++ join_pieces d ds

-- However the stream is cut into pieces, a parser that skips unknown tags returns the same frames,
-- counts the same unknown tags and holds back the same bytes as if it came whole.
pub feed-pieces :
    (p : StatusParser) (c : Bytes) (cs : List Bytes)
    → p.strict ≡ false
    → feed_pieces p c cs ≡ feed p (join_pieces c cs)
feed-pieces p c [] h = refl
feed-pieces p c (d ∷ ds) h =
    let (is, r, e) = Parses-total (suc (length (p.buf ++ c))) (p.buf ++ c) (omega arith) in
    let q : StatusParser = lenient (count_items is p.unknown_tags) r in
    rw (feed-append p c (join_pieces d ds) h, feed-Parses p c h e, feed-pieces q d ds refl) refl
