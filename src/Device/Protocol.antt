-- ===== src/Device/Protocol.antt =====
-- src/labelfab/device/protocol.py: what a command is, and how a call of one becomes bytes.
pub mod Calls
use labelfab.Common.{
  ℕ, ◌+◌, Bool, true, false, ◌||◌, List, [], ◌∷◌, ◌++◌, Option, none, some, String, length, leb,
  ◌==◌, if◌then◌else◌, Result, ok, err, ◌>>=◌, ◌>>◌, guard, ℤ, pos, negsuc,
}

abbrev pub Bytes : Type 0
Bytes = List ℕ

pub data Support : Type 0 where
  verified reachable decompiled : Support

pub data Danger : Type 0 where
  safe stateful destructive : Danger

-- Each `raise ValueError` of the module, with the values that its message shows.
pub data ValueError : Type 0 where
  wrong_arity : String → ℕ → ℕ → ValueError
  not_a_byte : String → ℤ → ValueError
  bad_density : ℕ → ValueError
  bad_paper_type : ℕ → ValueError
  minutes_negative : ValueError
  minutes_off_unit : ℕ → ValueError
  minutes_too_long : ℕ → ValueError
  width_out_of_range : ℕ → ValueError
  height_out_of_range : ℕ → ValueError
  copies_below_one : ValueError
  copies_too_many : ℕ → ValueError
  copies_need_gap : ValueError

-- `args` is `none` for a variable number of arguments. The note is documentation.
pub record Command : Type 0 where
  pub name : String
  pub opcode : Bytes
  pub support : Support
  pub danger : Danger
  pub args : Option ℕ

-- `for v in values: if not 0 <= v <= 0xFF: raise …`, then `bytes(values)`.
unfoldable pub value_bytes : String → List ℤ → Result ValueError Bytes
value_bytes name [] = ok []
value_bytes name (negsuc n ∷ vs) = err (not_a_byte name (negsuc n))
value_bytes name (pos n ∷ vs) =
    if leb n 0xFF
    then (value_bytes name vs >>= λ bs. ok (n ∷ bs))
    else err (not_a_byte name (pos n))

abbrev pub arity_ok : Option ℕ → ℕ → Bool
arity_ok none n = true
arity_ok (some k) n = n == k

abbrev pub expected_args : Option ℕ → ℕ
expected_args none = 0
expected_args (some k) = k

-- `Command.__call__`
unfoldable pub call : Command → List ℤ → Result ValueError Bytes
call c values = do
  guard (arity_ok c.args (length values))
      (wrong_arity c.name (expected_args c.args) (length values))
  bs ← value_bytes c.name values
  ok (c.opcode ++ bs)

abbrev pub is_safe : Danger → Bool
is_safe safe = true
is_safe _ = false

unfoldable pub is_safe_to_probe : Command → Bool
is_safe_to_probe c = is_safe c.danger

abbrev pub density_light : ℕ
density_light = 1

abbrev pub density_medium : ℕ
density_medium = 2

abbrev pub density_heavy : ℕ
density_heavy = 4

abbrev pub paper_gap : ℕ
paper_gap = 0x0A

abbrev pub paper_continuous : ℕ
paper_continuous = 0x0B

abbrev pub vendor_feed_lines : ℕ
vendor_feed_lines = 23

abbrev pub max_frame_lines : ℕ
max_frame_lines = 0xFFFF

abbrev pub max_frame_bytes_per_line : ℕ
max_frame_bytes_per_line = 0xFFFF

abbrev pub head_width_bytes : ℕ
head_width_bytes = 12

abbrev pub densities : List ℕ
densities = density_light ∷ density_medium ∷ density_heavy ∷ []

abbrev pub paper_types : List ℕ
paper_types = paper_gap ∷ paper_continuous ∷ []

-- `n in values`
abbrev pub one_of : ℕ → List ℕ → Bool
one_of n [] = false
one_of n (v ∷ vs) = n == v || one_of n vs
