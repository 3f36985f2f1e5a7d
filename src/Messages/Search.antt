-- ===== src/Messages/Search.antt =====
-- The search in the tables of src/ec_common.c against their rows.
use Prim.Native.String.{String}
use cherry_ecat.Prelude.{
  ℕ, ◌≡◌, ◌≢◌, inl, inr, refl, List, [], ◌∷◌, Option, some, ◌==◌, Bool, true, false, Bool-cases,
  ==_iff, arith, if◌then◌else◌,
}
use cherry_ecat.Messages.{Row, row, lookup, unknown}
use cherry_ecat.Messages.Tables.{
  al_status_messages, mbox_error_messages, sdo_abort_messages, foe_errcode_messages,
  eoe_errcode_messages,
}
use cherry_ecat.Messages.Strings.{
  alstatus_string, mbox_error_string, sdo_abort_string, foe_errorcode_string, eoe_errorcode_string,
}

-- The answer for a code, said of the table `rows` that ends at the code `stop`: the message of the
-- first row with the code, or "Unknown errorcode" where no row has it.
pub data Answer (stop key : ℕ) : List Row → String → Type 0 where
  found :
      (c : ℕ) (m : String) (rs : List Row) → c ≢ stop → c ≡ key → Answer stop key (row c m ∷ rs) m
  unlisted :
      (c : ℕ) (m : String) (rs : List Row) → c ≡ stop → Answer stop key (row c m ∷ rs) unknown
  later :
      (c : ℕ) (m n : String) (rs : List Row)
      → c ≢ stop
      → c ≢ key
      → Answer stop key rs n
      → Answer stop key (row c m ∷ rs) n

-- A table with its last row.
is_ended : ℕ → List Row → Bool
is_ended stop [] = false
is_ended stop (row c m ∷ rs) = if c == stop then true else is_ended stop rs

lookup-Answer :
    (stop key : ℕ) (rows : List Row)
    → is_ended stop rows ≡ true
    → (m : String) × (lookup stop key rows ≡ some m) × Answer stop key rows m
unfolding lookup is_ended
lookup-Answer stop key [] h = absurd (ground (arith, h))
lookup-Answer stop key (row c m ∷ rs) h = elim (Bool-cases (c == stop)) [
  | inl e ↦ rw e (unknown, refl, Answer.unlisted c m rs ((==_iff c stop).0 e))
  | inr e ↦ elim (Bool-cases (c == key)) [
    | inl k ↦ rw e (rw k (m, refl, Answer.found c m rs (ground (arith, e)) ((==_iff c key).0 k)))
    | inr k ↦
        let r = lookup-Answer stop key rs (ground (arith, h, e)) in
        rw e (rw k (r.0, r.1, Answer.later c m r.0 rs (ground (arith, e)) (ground (arith, k)) r.2))
  ]
]

-- A message for `key`, as the table says.
pub Messaged : ℕ → ℕ → List Row → Option String → Type 0
Messaged stop key rows answer = (m : String) × (answer ≡ some m) × Answer stop key rows m

-- For every code, each of the five searches ends inside its table, with the message of the first row
-- that has the code, and "Unknown errorcode" where no row before the last has it.
pub strings-Messaged :
    (key : ℕ)
    → Messaged 0xffff key al_status_messages (alstatus_string key)
      × Messaged 0xffffffff key mbox_error_messages (mbox_error_string key)
      × Messaged 0xffffffff key sdo_abort_messages (sdo_abort_string key)
      × Messaged 0xffffffff key foe_errcode_messages (foe_errorcode_string key)
      × Messaged 0xffffffff key eoe_errcode_messages (eoe_errorcode_string key)
unfolding Messaged is_ended al_status_messages mbox_error_messages sdo_abort_messages
    foe_errcode_messages eoe_errcode_messages alstatus_string mbox_error_string sdo_abort_string
    foe_errorcode_string eoe_errorcode_string
strings-Messaged key = (
  lookup-Answer 0xffff key al_status_messages refl,
  lookup-Answer 0xffffffff key mbox_error_messages refl,
  lookup-Answer 0xffffffff key sdo_abort_messages refl,
  lookup-Answer 0xffffffff key foe_errcode_messages refl,
  lookup-Answer 0xffffffff key eoe_errcode_messages refl,
)
