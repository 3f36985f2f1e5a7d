-- ===== src/Slave/Content/Encode.antt =====
-- EEPROM categories by what they say, the bytes they stand for, and what reading them is to leave.
use cherry_ecat.Prelude.{
  ℕ, suc, ◌+◌, ◌*◌, ◌<◌, ◌≡◌, ◌≢◌, List, [], ◌∷◌, ◌++◌, map, true, some, length, bytes_u16,
}
use cherry_ecat.Slave.Content.{Content, SmSetting}

-- A category: strings, the general data, sync managers, or any other with its type. `pad` are the
-- bytes behind its content; of a sync manager, `status` and `type` are not kept.
pub data Category : Type 0 where
  strings : (texts : List (List ℕ)) (pad : List ℕ) → Category
  general : (fields : List ℕ) (pad : List ℕ) → Category
  sync_managers : (sms : List (SmSetting × (ℕ × ℕ))) → Category
  other : (type : ℕ) (body : List ℕ) → Category

unfoldable pub text_bytes : List (List ℕ) → List ℕ
text_bytes [] = []
text_bytes (t ∷ ts) = length t ∷ (t ++ text_bytes ts)

unfoldable pub sm_bytes : List (SmSetting × (ℕ × ℕ)) → List ℕ
sm_bytes [] = []
sm_bytes ((s, (status, type)) ∷ sms) =
    bytes_u16 s.physical_start_address
    ++ (bytes_u16 s.length ++ (s.control ∷ status ∷ s.enable ∷ type ∷ sm_bytes sms))

abbrev pub body : Category → List ℕ
body (Category.strings texts pad) = length texts ∷ (text_bytes texts ++ pad)
body (Category.general fields pad) = fields ++ pad
body (Category.sync_managers sms) = sm_bytes sms
body (Category.other type bs) = bs

abbrev pub type_of : Category → ℕ
type_of (Category.strings texts pad) = 0x000A
type_of (Category.general fields pad) = 0x001E
type_of (Category.sync_managers sms) = 0x0029
type_of (Category.other type bs) = type

-- A category in the EEPROM: its type, its size in words, its body.
unfoldable pub encode : List (Category × ℕ) → List ℕ
encode [] = bytes_u16 0xFFFF
encode ((cat, size) ∷ cats) =
    bytes_u16 (type_of cat) ++ (bytes_u16 size ++ (body cat ++ encode cats))

abbrev pub ShortTexts : List (List ℕ) → Type 0
ShortTexts [] = Unit
ShortTexts (t ∷ ts) = (length t < 256) × ShortTexts ts

abbrev pub WordSms : List (SmSetting × (ℕ × ℕ)) → Type 0
WordSms [] = Unit
WordSms ((s, st) ∷ sms) = ((s.physical_start_address < 65536) × (s.length < 65536)) × WordSms sms

-- What a category must satisfy for its bytes to say the same.
unfoldable pub Fits : Category → Type 0
Fits (Category.strings texts pad) = (length texts < 256) × ShortTexts texts
Fits (Category.general fields pad) = length fields ≡ 32
Fits (Category.sync_managers sms) = (length sms < 256) × WordSms sms
Fits (Category.other type bs) =
    (type < 0xFFFF) × ((type ≢ 0x000A) × ((type ≢ 0x001E) × (type ≢ 0x0029)))

-- Every category fits, and its size is that of its body.
unfoldable pub AllFit : List (Category × ℕ) → Type 0
AllFit [] = Unit
AllFit ((cat, size) ∷ cats) =
    Fits cat × (((size < 65536) × (length (body cat) ≡ 2 * size)) × AllFit cats)

abbrev pub terminated : List ℕ → List ℕ
terminated t = t ++ (0 ∷ [])

-- The content after a category of strings: one without strings leaves the array that was there.
abbrev pub with_strings : List (List ℕ) → Content → Content
with_strings [] c = record c { string_count = 0 }
with_strings (t ∷ ts) c = record c {
  string_count = suc (length ts);
  strings = some (map terminated (t ∷ ts));
  allocs = c.allocs + (1 + suc (length ts));
}

-- What a category says, put into the content.
unfoldable pub apply : Category → Content → Content
apply (Category.strings texts pad) c = with_strings texts c
apply (Category.general fields pad) c = record c { has_general = true; general = fields }
apply (Category.sync_managers sms) c = record c {
  sm_count = length sms;
  sm_info = some (map (λ s. s.0) sms);
  allocs = c.allocs + 1;
}
apply (Category.other type bs) c = c

unfoldable pub apply_all : List (Category × ℕ) → Content → Content
apply_all [] c = c
apply_all ((cat, size) ∷ cats) c = apply_all cats (apply cat c)
