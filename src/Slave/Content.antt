-- ===== src/Slave/Content.antt =====
-- src/ec_slave.c: the parsing of the EEPROM image by ec_slaves_scanning, ec_slave_fetch_sii_strings
-- and ec_slave_get_sii_string. A pointer into the image is the list of the bytes from
-- there on. The loop over the categories has no bound of its own: where it reads the type of a
-- category behind the image, the model gives none; any other byte behind it is read as 0. `allocs`
-- counts the allocations, and the parameter `alloc` says which of them succeed.
pub mod Encode
pub mod Parsed
pub mod Image
use cherry_ecat.Prelude.{
  ℕ, zero, suc, ◌+◌, ◌-◌, ◌*◌, ◌/◌, ◌%◌, List, [], ◌∷◌, ◌++◌, Bool, true, false, Option, none, some,
  ◌==◌, leb, if◌then◌else◌, length, drop, get_elem?, read_u8, read_u16,
}
use cherry_ecat.Sii.{words}

-- What one entry of a sync manager category sets of an ec_sm_info_t; memset clears the rest.
pub record SmSetting : Type 0 where
  pub physical_start_address : ℕ
  pub length : ℕ
  pub control : ℕ
  pub enable : ℕ

-- The fields of an ec_slave_t that the categories fill; a pointer is none where it is NULL.
pub record Content : Type 0 where
  pub string_count : ℕ
  pub strings : Option (List (List ℕ))
  pub has_general : Bool
  pub general : List ℕ
  pub sm_count : ℕ
  pub sm_info : Option (List SmSetting)
  pub allocs : ℕ

-- The loop of ec_slave_fetch_sii_strings over `n` strings from `offset` on: the copies, each
-- with its terminating 0, or none where an allocation fails. `k` counts the allocations. The
-- offset is at most 1 + 255 * 256, and cannot wrap round.
unfoldable pub copy_strings : (ℕ → Bool) → ℕ → List ℕ → ℕ → ℕ → Option (List (List ℕ))
copy_strings alloc zero bytes offset k = some []
copy_strings alloc (suc n) bytes offset k =
    let size = read_u8 bytes offset in
    let rest = copy_strings alloc n bytes (offset + (1 + size)) (k + 1) in
    if alloc k
    then elim rest [
      | none ↦ none
      | some ss ↦ some ((words size bytes (offset + 1) ++ (0 ∷ [])) ∷ ss)
    ]
    else none

-- What is stored, with whether it went well, once the array of the strings is there.
abbrev pub stored_strings : Option (List (List ℕ)) → ℕ → Content → Bool × Content
stored_strings none n c = (false, record c { string_count = 0; strings = none })
stored_strings (some ss) n c =
    (true, record c { string_count = n; strings = some ss; allocs = c.allocs + (1 + n) })

-- ec_slave_fetch_sii_strings: false for -EC_ERR_NOMEM. Without strings, the pointer is not touched.
unfoldable pub fetch_sii_strings : (ℕ → Bool) → List ℕ → Content → Bool × Content
fetch_sii_strings alloc bytes c =
    let n = read_u8 bytes 0 in
    if n == 0
    then (true, record c { string_count = 0 })
    else if alloc c.allocs
    then stored_strings (copy_strings alloc n bytes 1 (c.allocs + 1)) n c
    else (false, record c { string_count = 0 })

-- The entry at `bytes` of a sync manager category.
unfoldable pub read_sm : List ℕ → SmSetting
read_sm bytes = record {
  physical_start_address = read_u16 bytes 0;
  length = read_u16 bytes 2;
  control = read_u8 bytes 4;
  enable = read_u8 bytes 6;
}

-- The loop over `n` entries of 8 bytes.
unfoldable pub read_sms : ℕ → List ℕ → List SmSetting
read_sms zero bytes = []
read_sms (suc n) bytes = read_sm bytes ∷ read_sms n (drop 8 bytes)

-- The case of a sync manager category of `cat_size` words; sm_count is a byte.
unfoldable pub fetch_sms : (ℕ → Bool) → ℕ → List ℕ → Content → Bool × Content
fetch_sms alloc cat_size bytes c =
    let n = cat_size * 2 / 8 % 256 in
    if alloc c.allocs
    then (true, record c { sm_count = n; sm_info = some (read_sms n bytes); allocs = c.allocs + 1 })
    else (false, record c { sm_count = n; sm_info = none })

-- The switch over the type: EC_SII_TYPE_STRINGS, EC_SII_TYPE_GENERAL with the 32 bytes of an
-- ec_sii_general_t, EC_SII_TYPE_SM; the other types change nothing.
unfoldable pub parse_category : (ℕ → Bool) → ℕ → ℕ → List ℕ → Content → Bool × Content
parse_category alloc cat_type cat_size bytes c =
    if cat_type == 0x000A
    then fetch_sii_strings alloc bytes c
    else if cat_type == 0x001E
    then (true, record c { has_general = true; general = words 32 bytes 0 })
    else if cat_type == 0x0029
    then fetch_sms alloc cat_size bytes c
    else (true, c)

-- The loop over the categories: whether it got to the end, and the content; every turn is 4 bytes
-- further at least. The source goes on where no header of a category is left in the image; what is
-- in the memory there is unknown, and the model stops with none.
unfoldable pub parse_categories : (ℕ → Bool) → ℕ → List ℕ → Content → Option (Bool × Content)
parse_categories alloc zero bytes c = none
parse_categories alloc (suc fuel) bytes c =
    let cat_size = read_u16 bytes 2 in
    let parsed = parse_category alloc (read_u16 bytes 0) cat_size (drop 4 bytes) c in
    let rest = parse_categories alloc fuel (drop (2 * cat_size) (drop 4 bytes)) parsed.1 in
    if leb 2 (length bytes)
    then (if read_u16 bytes 0 == 0xFFFF
        then some (true, c)
        else if parsed.0
        then rest
        else some parsed)
    else none

-- The image from EC_FIRST_SII_CATEGORY_OFFSET on.
unfoldable pub parse_image : (ℕ → Bool) → List ℕ → Content → Option (Bool × Content)
parse_image alloc image c = parse_categories alloc (length image) (drop 128 image) c

-- ec_slave_get_sii_string: `index` counts from 1.
unfoldable pub get_sii_string : Content → ℕ → Option (List ℕ)
get_sii_string c zero = none
get_sii_string c (suc index) =
    if leb c.string_count index
    then none
    else elim c.strings [ none ↦ none | some ss ↦ get_elem? ss index ]
