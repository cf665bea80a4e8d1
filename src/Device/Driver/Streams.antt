-- ===== src/Device/Driver/Streams.antt =====
-- `PhomemoD30.print_raster` of src/labelfab/device/d30.py: the bytes of one frame on the wire.
use labelfab.Common.{
  ℕ, zero, suc, ◌+◌, ◌≤◌, ◌<◌, ◌≡◌, refl, sym, subst, ◌∙◌, ap, Bool, true, false, [], ◌∷◌, ◌++◌,
  Option, none, some, length, take, drop, take-append-drop, length-drop, arith, append_assoc,
  append-nil, Result, ok, err, leb, if◌then◌else◌, pos,
}
use labelfab.Device.Protocol.{Bytes, call, value_bytes, max_frame_lines}
use labelfab.Device.Commands
use labelfab.Device.Raster.{DeviceRaster}
use labelfab.Device.Transport.{
  Transport, DriverError, Io, ◌>>◌, pass, is_over, write_if, room_left, write, flush,
}
use labelfab.Device.Driver.{
  D30Config, write_packet, write_chunks, write_body, write_feed, write_frame, is_feeding,
  preamble_of, print_raster,
}

-- Of `stream`, all but `rest` has been written, and all of it if nothing was raised; an open link
-- without a limit takes it all.
pub record Wrote (stream : Bytes) (t : Transport) (o : Result DriverError (Unit {0}) × Transport)
    : Type 0 where
  pub rest : Bytes
  pub cut : t.buf ++ stream ≡ o.1.buf ++ rest
  pub all : o.0 ≡ ok tt → rest ≡ []
  pub steady :
      t.is_open ≡ true
      → t.fail_after_bytes ≡ none
      → (o.0 ≡ ok tt) × (o.1.is_open ≡ true) × (o.1.fail_after_bytes ≡ none)

pass-Wrote : (t : Transport) → Wrote [] t (pass t)
pass-Wrote t = record { rest = []; cut = refl; all = λ e. refl; steady = λ o n. (refl, o, n) }

raised-Wrote :
    (b : Bytes) (t v : Transport) (e : DriverError) (rest : Bytes)
    → t.buf ++ b ≡ v.buf ++ rest
    → (t.is_open ≡ true → t.fail_after_bytes ≡ none → ⊥)
    → Wrote b t (err e, v)
raised-Wrote b t v e rest cut never = record {
  rest = rest;
  cut = cut;
  all = λ h. cc;
  steady = λ o n. absurd (never o n);
}

over-limited : (o : Option ℕ) (n : ℕ) → is_over o n ≡ true → o ≡ none → ⊥
over-limited none n h e = cc
over-limited (some k) n h e = cc

write_if-Wrote :
    (is_open over : Bool) (b : Bytes) (t : Transport)
    → t.is_open ≡ is_open
    → is_over t.fail_after_bytes (length t.buf + length b) ≡ over
    → Wrote b t (write_if is_open over b t)
write_if-Wrote false over b t shut e = raised-Wrote b t t _ b refl (λ o n. cc)
write_if-Wrote true true b t open_now over =
    let n = room_left t.fail_after_bytes (length t.buf) in
    raised-Wrote b t _ _ (drop n b)
      (ap (λ x. t.buf ++ x) (sym (take-append-drop n b))
        ∙ sym (append_assoc t.buf (take n b) (drop n b)))
      (λ o e. over-limited t.fail_after_bytes _ over e)
write_if-Wrote true false b t open_now fits = record {
  rest = [];
  cut = sym (append-nil (t.buf ++ b));
  all = λ e. refl;
  steady = λ o n. (refl, o, n);
}

write-Wrote : (b : Bytes) (t : Transport) → Wrote b t (write b t)
unfolding write
write-Wrote b t =
    write_if-Wrote t.is_open (is_over t.fail_after_bytes (length t.buf + length b)) b t refl refl

flush-Wrote : (t : Transport) → Wrote [] t (flush t)
unfolding flush
flush-Wrote t = record { rest = []; cut = refl; all = λ e. refl; steady = λ o n. (refl, o, n) }

-- A writer after a writer.
>>-Wrote :
    (a b : Bytes) (m k : Io (Unit {0})) (t : Transport)
    → Wrote a t (m t)
    → ((v : Transport) → Wrote b v (k v))
    → Wrote (a ++ b) t ((m >> k) t)
>>-Wrote a b m k t first next = go (m t).0 (m t).1 first
  where
    go :
        (r : Result DriverError (Unit {0})) (v : Transport)
        → Wrote a t (r, v)
        → Wrote (a ++ b) t (elim r [ ok x ↦ k v | err e ↦ (err e, v) ])
    go (err e) v h =
        raised-Wrote (a ++ b) t v e (h.rest ++ b)
          (sym (append_assoc t.buf a b) ∙ (ap (λ x. x ++ b) h.cut ∙ append_assoc v.buf h.rest b))
          (λ o n. let bad = (h.steady o n).0 in cc)
    go (ok x) v h =
        let after = next v in
        let took : t.buf ++ a ≡ v.buf =
          h.cut ∙ (ap (λ x. v.buf ++ x) (h.all refl) ∙ append-nil v.buf) in
        record {
          rest = after.rest;
          cut = sym (append_assoc t.buf a b) ∙ (ap (λ x. x ++ b) took ∙ after.cut);
          all = after.all;
          steady = λ o n. after.steady (h.steady o n).1 (h.steady o n).2;
        }

write_packet-Wrote : (b : Bytes) (t : Transport) → Wrote b t (write_packet b t)
unfolding write_packet
write_packet-Wrote b t =
    subst (λ x. Wrote x t (write_packet b t)) (append-nil b)
      (>>-Wrote b [] (write b) flush t (write-Wrote b t) (λ v. flush-Wrote v))

write_chunks-Wrote :
    (n fuel : ℕ) (b : Bytes) (t : Transport) → length b ≤ fuel → Wrote b t (write_chunks n fuel b t)
unfolding write_chunks
write_chunks-Wrote n fuel [] t h = pass-Wrote t
write_chunks-Wrote n zero (x ∷ b) t h = absurd (omega arith)
write_chunks-Wrote n (suc fuel) (x ∷ b) t h =
    subst (λ s. Wrote s t (write_chunks n (suc fuel) (x ∷ b) t)) (take-append-drop (suc n) (x ∷ b))
      (>>-Wrote (take (suc n) (x ∷ b)) (drop (suc n) (x ∷ b)) (write_packet (take (suc n) (x ∷ b)))
        (write_chunks n fuel (drop n b)) t (write_packet-Wrote (take (suc n) (x ∷ b)) t)
        (λ v. write_chunks-Wrote n fuel (drop n b) v (omega (arith, length-drop {0} n b))))

-- What follows the raster on the wire.
abbrev pub feed_bytes : D30Config → Bytes
feed_bytes c = if is_feeding c then 0x1b ∷ 0x64 ∷ c.feed_lines ∷ [] else []

call-feed :
    (n : ℕ) → n ≤ 255 → call Commands.print_and_feed (pos n ∷ []) ≡ ok (0x1b ∷ 0x64 ∷ n ∷ [])
unfolding call value_bytes
call-feed n h = ground arith

write_feed-Wrote :
    (c : D30Config) (feeding : Bool) (t : Transport)
    → c.feed_lines ≤ 255
    → Wrote (if feeding then 0x1b ∷ 0x64 ∷ c.feed_lines ∷ [] else []) t (write_feed c feeding t)
write_feed-Wrote c false t h = pass-Wrote t
write_feed-Wrote c true t h =
    rw (call-feed c.feed_lines h) (write_packet-Wrote (0x1b ∷ 0x64 ∷ c.feed_lines ∷ []) t)

write_body-Wrote : (n : ℕ) (b : Bytes) (t : Transport) → 0 < n → Wrote b t (write_body n b t)
write_body-Wrote zero b t h = absurd (omega arith)
write_body-Wrote (suc n) b t h = write_chunks-Wrote n (length b) b t (omega arith)

write_frame-Wrote :
    (c : D30Config) (raster : DeviceRaster) (preamble : Bytes) (t : Transport)
    → 0 < c.chunk_bytes
    → c.feed_lines ≤ 255
    → Wrote (preamble ++ (raster.pixels ++ feed_bytes c)) t (write_frame c raster preamble t)
write_frame-Wrote c raster preamble t chunks feed =
    >>-Wrote preamble (raster.pixels ++ feed_bytes c) (write_packet preamble)
      (write_body c.chunk_bytes raster.pixels >> write_feed c (is_feeding c)) t
      (write_packet-Wrote preamble t)
      (λ v.
        >>-Wrote raster.pixels (feed_bytes c) (write_body c.chunk_bytes raster.pixels)
          (write_feed c (is_feeding c)) v (write_body-Wrote c.chunk_bytes raster.pixels v chunks)
          (λ u. write_feed-Wrote c (is_feeding c) u feed))

print_raster-eq-frame :
    (c : D30Config) (raster : DeviceRaster) (copies : ℕ) (density : Option ℕ) (preamble : Bytes)
    (t : Transport)
    → t.is_open ≡ true
    → leb raster.height_px max_frame_lines ≡ true
    → preamble_of c raster copies density ≡ ok preamble
    → print_raster c true raster copies density t ≡ write_frame c raster preamble t
unfolding print_raster
print_raster-eq-frame c raster copies density preamble t is_open height built = ground arith

-- On an open and initialised link, for a frame of at most `max_frame_lines` lines that has a
-- preamble, with chunks of a byte or more and at most 255 lines of feed: what `print_raster` puts on
-- the wire is a part from the front of the preamble, the raster's bytes and, on continuous tape, the
-- feed; all of it when nothing is raised. A link without a limit takes it all.
pub print_raster-Wrote :
    (c : D30Config) (raster : DeviceRaster) (copies : ℕ) (density : Option ℕ) (preamble : Bytes)
    (t : Transport)
    → t.is_open ≡ true
    → raster.height_px ≤ max_frame_lines
    → 0 < c.chunk_bytes
    → c.feed_lines ≤ 255
    → preamble_of c raster copies density ≡ ok preamble
    → Wrote
        (preamble ++ (raster.pixels ++ feed_bytes c))
        t
        (print_raster c true raster copies density t)
print_raster-Wrote c raster copies density preamble t is_open height chunks feed built =
    subst (λ o. Wrote (preamble ++ (raster.pixels ++ feed_bytes c)) t o)
      (sym (print_raster-eq-frame c raster copies density preamble t is_open (ground arith) built))
      (write_frame-Wrote c raster preamble t chunks feed)
