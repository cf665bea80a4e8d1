-- ===== src/Cli/Probe/Keeps.antt =====
-- `cmd_probe` of src/labelfab/cli.py: nothing that a mode does opens or closes its link.
use labelfab.Common.{
  ℕ, zero, suc, ◌%◌, ◌==◌, ◌≡◌, Bool, true, false, List, [], ◌∷◌, none, Result, ok, err,
  if◌then◌else◌, Bool-cases, inl, inr, length, take, drop, leb, ◌&&◌,
}
use labelfab.Device.Protocol.{Bytes, ValueError, call, max_frame_lines}
use labelfab.Device.Commands
use labelfab.Device.Raster.{DeviceRaster}
use labelfab.Device.Patterns.{PatternError, Pencil, self_test, head_width_probe}
use labelfab.Device.Transport.{Transport, Io, ◌>>◌, raise, is_over, write_if, write, flush}
use labelfab.Device.Driver.{
  D30Config, lift, write_packet, write_chunks, write_body, write_feed, write_frame, is_feeding,
  preamble_of, print_raster,
}
use labelfab.Cli.Probe.{
  ProbeArgs, Run, ◌>>>◌, by_driver, idle, config_of, stack, given, printed, test_print, times,
  if_wasting, strip_print, width_prints, length_prints, head_print, Mode, strip_mode,
  self_test_mode, width_mode, length_mode, head_mode, no_mode, prints_of,
}

-- Open, after being opened once and never closed.
abbrev pub IsInUse : Transport → Type 0
IsInUse t = (t.is_open ≡ true) × (t.opened ≡ 1) × (t.closed ≡ 0)

-- Whatever it does and however it ends, a link in use stays in use.
abbrev pub Keeps {ℓ} : {A : Type ℓ} → (Transport → A × Transport) → Type 0
Keeps m = (t : Transport) → IsInUse t → IsInUse (m t).1

ended-IsInUse :
    {E : Type 0} (k : Transport → Result E (Unit {0}) × Transport) (r : Result E (Unit {0}))
    (v : Transport)
    → Keeps k
    → IsInUse v
    → IsInUse
        (elim r as (λ x. Result E (Unit {0}) × Transport) [ ok x ↦ k v | err e ↦ (err e, v) ]).1
ended-IsInUse k (ok x) v next i = next v i
ended-IsInUse k (err e) v next i = i

>>-Keeps : (m k : Io (Unit {0})) → Keeps m → Keeps k → Keeps (m >> k)
>>-Keeps m k first next t h = ended-IsInUse k (m t).0 (m t).1 next (first t h)

>>>-Keeps : (m k : Run) → Keeps m → Keeps k → Keeps (m >>> k)
>>>-Keeps m k first next t h = ended-IsInUse k (m t).0 (m t).1 next (first t h)

write_if-Keeps : (is_open over : Bool) (b : Bytes) → Keeps (write_if is_open over b)
write_if-Keeps false over b t h = h
write_if-Keeps true true b t h = h
write_if-Keeps true false b t h = h

write_packet-Keeps : (b : Bytes) → Keeps (write_packet b)
unfolding write_packet write flush
write_packet-Keeps b =
    >>-Keeps (write b) flush (λ t h. write_if-Keeps t.is_open (is_over t.fail_after_bytes _) b t h)
      (λ t h. h)

write_chunks-Keeps : (n fuel : ℕ) (b : Bytes) → Keeps (write_chunks n fuel b)
unfolding write_chunks
write_chunks-Keeps n fuel [] t h = h
write_chunks-Keeps n zero (x ∷ b) t h = h
write_chunks-Keeps n (suc fuel) (x ∷ b) t h =
    let front = take (suc n) (x ∷ b) in
    let back = drop (suc n) (x ∷ b) in
    >>-Keeps (write_packet front) (write_chunks n fuel back) (write_packet-Keeps front)
      (write_chunks-Keeps n fuel back) t h

write_body-Keeps : (n : ℕ) (b : Bytes) → Keeps (write_body n b)
write_body-Keeps zero b t h = h
write_body-Keeps (suc n) b t h = write_chunks-Keeps n (length b) b t h

lift-Keeps :
    (r : Result ValueError Bytes) (k : Bytes → Io (Unit {0}))
    → ((b : Bytes) → Keeps (k b))
    → Keeps (lift r k)
lift-Keeps (ok b) k each t h = each b t h
lift-Keeps (err e) k each t h = h

write_feed-Keeps : (c : D30Config) (feeding : Bool) → Keeps (write_feed c feeding)
write_feed-Keeps c false t h = h
write_feed-Keeps c true t h =
    lift-Keeps (call Commands.print_and_feed _) (λ b. write_packet b) write_packet-Keeps t h

write_frame-Keeps :
    (c : D30Config) (raster : DeviceRaster) (b : Bytes) → Keeps (write_frame c raster b)
write_frame-Keeps c raster b =
    >>-Keeps (write_packet b)
      (write_body c.chunk_bytes raster.pixels >> write_feed c (is_feeding c)) (write_packet-Keeps b)
      (>>-Keeps (write_body c.chunk_bytes raster.pixels) (write_feed c (is_feeding c))
        (write_body-Keeps c.chunk_bytes raster.pixels) (write_feed-Keeps c (is_feeding c)))

if-Keeps {ℓ} :
    {A : Type ℓ} (b : Bool) (m k : Transport → A × Transport)
    → Keeps m
    → Keeps k
    → Keeps (λ t. if b then m t else k t)
if-Keeps true m k left right = left
if-Keeps false m k left right = right

print_raster-Keeps :
    (c : D30Config) (raster : DeviceRaster) → Keeps (print_raster c true raster 1 none)
unfolding print_raster
print_raster-Keeps c raster t h =
    if-Keeps (t.is_open && true)
      (λ v.
        if leb raster.height_px max_frame_lines
        then lift (preamble_of c raster 1 none) (λ b. write_frame c raster b) v
        else raise _ v)
      (raise _)
      (if-Keeps (leb raster.height_px max_frame_lines)
        (lift (preamble_of c raster 1 none) (λ b. write_frame c raster b)) (raise _)
        (lift-Keeps (preamble_of c raster 1 none) _ (λ b. write_frame-Keeps c raster b)) (λ v i. i))
      (λ v i. i) t h

given-Keeps :
    (r : Result PatternError DeviceRaster) (k : DeviceRaster → Run)
    → ((raster : DeviceRaster) → Keeps (k raster))
    → Keeps (given r k)
given-Keeps (ok raster) k each t h = each raster t h
given-Keeps (err e) k each t h = h

idle-Keeps : Keeps idle
idle-Keeps t h = h

module _ (p : Pencil) (args : ProbeArgs) where
  printed-Keeps : (raster : DeviceRaster) → Keeps (printed p args raster)
  printed-Keeps raster t h = print_raster-Keeps (config_of args.tape) raster t h

  pub test_print-Keeps : (w h : ℕ) → Keeps (test_print p args w h)
  test_print-Keeps w h = given-Keeps (self_test p w h) (printed p args) printed-Keeps

  times-Keeps : (n : ℕ) (m : Run) → Keeps m → Keeps (times p args n m)
  times-Keeps zero m each = idle-Keeps
  times-Keeps (suc n) m each = >>>-Keeps m (times p args n m) each (times-Keeps n m each)

  if_wasting-Keeps : (b : Bool) (m : Run) → Keeps m → Keeps (if_wasting p args b m)
  if_wasting-Keeps true m each = each
  if_wasting-Keeps false m each = idle-Keeps

  strip_print-Keeps : Keeps (strip_print p args)
  strip_print-Keeps = given-Keeps (self_test p args.width_px args.length_px) _ (λ one.
      let more = times p args args.strip (printed p args one) in
      >>>-Keeps (given (stack one args.strip) (printed p args))
        (if_wasting p args args.measure_waste more)
        (given-Keeps (stack one args.strip) (printed p args) printed-Keeps)
        (if_wasting-Keeps args.measure_waste more
          (times-Keeps args.strip (printed p args one) (printed-Keeps one))))

  width_prints-Keeps : (ws : List ℕ) → Keeps (width_prints p args ws)
  width_prints-Keeps [] = idle-Keeps
  width_prints-Keeps (w ∷ ws) = elim (Bool-cases (w % 8 == 0)) [
    | inl whole ↦ rw whole (
        >>>-Keeps (test_print p args w 120) (width_prints p args ws) (test_print-Keeps w 120)
          (width_prints-Keeps ws))
    | inr broken ↦ rw broken (width_prints-Keeps ws)
  ]

  length_prints-Keeps : (ns : List ℕ) → Keeps (length_prints p args ns)
  length_prints-Keeps [] = idle-Keeps
  length_prints-Keeps (n ∷ ns) =
      >>>-Keeps (test_print p args args.width_px n) (length_prints p args ns)
        (test_print-Keeps args.width_px n) (length_prints-Keeps ns)

  head_print-Keeps : Keeps (head_print p args)
  head_print-Keeps =
      let query = lift (call Commands.label_width []) (λ b. write_packet b) in
      >>>-Keeps (by_driver query) (given (head_width_probe p args.width_px 8) (printed p args))
        (lift-Keeps (call Commands.label_width []) (λ b. write_packet b) write_packet-Keeps)
        (given-Keeps (head_width_probe p args.width_px 8) (printed p args) printed-Keeps)

  pub prints_of-Keeps : (m : Mode) → Keeps (prints_of p args m)
  prints_of-Keeps strip_mode = strip_print-Keeps
  prints_of-Keeps self_test_mode = test_print-Keeps args.width_px args.length_px
  prints_of-Keeps width_mode = width_prints-Keeps args.width_sweep
  prints_of-Keeps length_mode = length_prints-Keeps args.length_sweep
  prints_of-Keeps head_mode = head_print-Keeps
  prints_of-Keeps no_mode = idle-Keeps
