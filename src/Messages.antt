-- ===== src/Messages.antt =====
-- src/ec_common.c: the search of a message by its code, and the texts of states and protocols. A text
-- that the source prints in parts is the list of its parts.
pub mod Tables
pub mod Strings
pub mod Search
use Prim.Native.String.{String}
use cherry_ecat.Prelude.{ℕ, List, [], ◌∷◌, Option, none, some, ◌==◌, if◌then◌else◌}

-- ec_code_msg_t; the last row of a table has no message, which is the empty text here.
pub data Row : Type 0 where
  row : ℕ → String → Row

abbrev pub code : Row → ℕ
code (row c m) = c

abbrev pub message : Row → String
message (row c m) = m

abbrev pub unknown : String
unknown = "Unknown errorcode"

-- The loop of the functions below, over the rows up to the code `stop`; `none` is a read behind the
-- table's end.
unfoldable pub lookup : ℕ → ℕ → List Row → Option String
lookup stop errorcode [] = none
lookup stop errorcode (r ∷ rs) =
    if code r == stop
    then some unknown
    else if code r == errorcode
    then some (message r)
    else lookup stop errorcode rs
