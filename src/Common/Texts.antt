-- ===== src/Common/Texts.antt =====
-- Joining two texts.
use Prim.Native.String.{String, ◌++◌}

abbrev pub append : String → String → String
append s t = s ++ t
