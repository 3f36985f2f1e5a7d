-- ===== src/Messages/Strings.antt =====
-- src/ec_common.c: the functions that give a text.
use Prim.Native.String.{String}
use cherry_ecat.Prelude.{
  ℕ, ◌%◌, ◌/◌, List, [], ◌∷◌, ◌++◌, Option, Bool, true, false, not, ◌==◌, ◌&&◌, if◌then◌else◌,
  test_bit,
}
use cherry_ecat.Messages.{Row, code, message, lookup}
use cherry_ecat.Messages.Tables.{
  ec_mbox_protocol_messages, al_status_messages, mbox_error_messages, sdo_abort_messages,
  foe_errcode_messages, eoe_errcode_messages,
}

-- ec_alstatus_string
unfoldable pub alstatus_string : ℕ → Option String
alstatus_string errorcode = lookup 0xffff errorcode al_status_messages

-- ec_mbox_error_string
unfoldable pub mbox_error_string : ℕ → Option String
mbox_error_string errorcode = lookup 0xffffffff errorcode mbox_error_messages

-- ec_sdo_abort_string
unfoldable pub sdo_abort_string : ℕ → Option String
sdo_abort_string errorcode = lookup 0xffffffff errorcode sdo_abort_messages

-- ec_foe_errorcode_string
unfoldable pub foe_errorcode_string : ℕ → Option String
foe_errorcode_string errorcode = lookup 0xffffffff errorcode foe_errcode_messages

-- ec_eoe_errorcode_string
unfoldable pub eoe_errorcode_string : ℕ → Option String
eoe_errorcode_string errorcode = lookup 0xffffffff errorcode eoe_errcode_messages

-- The loop of ec_mbox_protocol_string; each code is a power of 2.
unfoldable pub protocols : Bool → ℕ → List Row → List String
protocols first prot [] = []
protocols first prot (r ∷ rs) =
    let set = protocols false prot rs in
    let unset = protocols first prot rs in
    if code r == 0
    then []
    else if prot / code r % 2 == 1
    then (if first then message r ∷ set else "|" ∷ message r ∷ set)
    else unset

-- ec_mbox_protocol_string
unfoldable pub mbox_protocol_string : ℕ → List String
mbox_protocol_string prot = protocols true prot ec_mbox_protocol_messages

-- One state of several, after the parts written so far.
abbrev add_state : Bool → String → List String → List String
add_state true name [] = name ∷ []
add_state true name (s ∷ ss) = (s ∷ ss) ++ ", " ∷ name ∷ []
add_state false name ss = ss

-- The text of a single state, without its flags.
abbrev single_state : ℕ → String
single_state s =
    if s == 1
    then "INIT"
    else if s == 2
    then "PREOP"
    else if s == 3
    then "BOOT"
    else if s == 4
    then "SAFEOP"
    else if s == 8
    then "OP"
    else "(invalid)"

-- The flag of an error, after the parts written so far. In the source `first` stays set where the
-- only state is OP, so that the separator is left out there.
abbrev add_error : Bool → Bool → List String → List String
add_error false first ss = ss
add_error true true ss = ss ++ "ERROR" ∷ []
add_error true false ss = ss ++ " + " ∷ "ERROR" ∷ []

-- ec_state_string
unfoldable pub state_string : ℕ → Bool → List String
state_string states multi =
    let others =
      add_state (test_bit states 2) "SAFEOP"
        (add_state (test_bit states 1) "PREOP" (add_state (test_bit states 0) "INIT" [])) in
    let no_others = not (test_bit states 0) && not (test_bit states 1) && not (test_bit states 2) in
    if states == 0
    then "(unknown)" ∷ []
    else if multi
    then add_error (test_bit states 4) no_others (add_state (test_bit states 3) "OP" others)
    else add_error (test_bit states 4) false (single_state (states % 16) ∷ [])
