-- ===== src/Slave/Content/Parsed.antt =====
-- What the parsing of src/ec_slave.c leaves of an EEPROM that holds categories.
use cherry_ecat.Prelude.{
  ℕ, zero, suc, ◌+◌, ◌*◌, ◌/◌, ◌%◌, ◌≤◌, ◌<◌, ◌≡◌, ◌≢◌, refl, sym, ap, ap₂, ◌∙◌, List, [], ◌∷◌,
  ◌++◌, map, append_assoc, Bool, true, Option, none, some, length, drop, get_or-append, read_u8,
  read_u16, arith, if◌then◌else◌,
}
use cherry_ecat.Sii.{words}
use cherry_ecat.Slave.Content.{
  Content, SmSetting, copy_strings, fetch_sii_strings, read_sm, read_sms, fetch_sms, parse_category,
  parse_categories, stored_strings,
}
use cherry_ecat.Slave.Content.Encode.{
  Category, text_bytes, sm_bytes, body, type_of, WordSms, Fits, terminated, with_strings, apply,
}

words-append :
    (n : ℕ) (xs ys : List ℕ) (k i : ℕ) → k ≡ length xs + i → words n (xs ++ ys) k ≡ words n ys i
words-append zero xs ys k i h = refl
words-append (suc n) xs ys k i h =
    ap₂ (λ b bs. b ∷ bs) (get_or-append xs ys k i 0 h)
      (words-append n xs ys (k + 1) (i + 1) (omega arith))

words_all : (t ys : List ℕ) → words (length t) (t ++ ys) 0 ≡ t
words_all [] ys = refl
words_all (b ∷ t) ys =
    ap (λ bs. b ∷ bs) (words-append (length t) (b ∷ []) (t ++ ys) 1 0 refl ∙ words_all t ys)

pub u16_bytes : (v : ℕ) → v < 65536 → v % 256 + 256 * (v / 256 % 256) ≡ v
u16_bytes v h = omega arith

-- What a turn of copy_strings makes of its copy and of what the turns behind it give.
abbrev stored : Bool → List ℕ → Option (List (List ℕ)) → Option (List (List ℕ))
stored ok t rest =
    if ok then elim rest [ none ↦ none | some ss ↦ some (terminated t ∷ ss) ] else none

module _ (alloc : ℕ → Bool) (granted : (k : ℕ) → alloc k ≡ true) where
  copy_strings-append :
      (n : ℕ) (xs ys : List ℕ) (o i k : ℕ)
      → o ≡ length xs + i
      → copy_strings alloc n (xs ++ ys) o k ≡ copy_strings alloc n ys i k
  unfolding copy_strings
  copy_strings-append zero xs ys o i k h = refl
  copy_strings-append (suc n) xs ys o i k h =
      let q : read_u8 (xs ++ ys) o ≡ read_u8 ys i = get_or-append xs ys o i 0 h in
      ap₂ (stored (alloc k))
        (ap (λ m. words m (xs ++ ys) (o + 1)) q
          ∙ words-append (read_u8 ys i) xs ys (o + 1) (i + 1) (omega arith))
        (copy_strings-append n xs ys (o + (1 + read_u8 (xs ++ ys) o)) (i + (1 + read_u8 ys i))
          (k + 1) (omega arith))

  copy_strings_lem :
      (ts : List (List ℕ)) (ys : List ℕ) (k : ℕ)
      → copy_strings alloc (length ts) (text_bytes ts ++ ys) 0 k ≡ some (map terminated ts)
  unfolding copy_strings text_bytes
  copy_strings_lem [] ys k = refl
  copy_strings_lem (t ∷ ts) ys k =
      let eq : (t ++ text_bytes ts) ++ ys ≡ t ++ (text_bytes ts ++ ys) =
        append_assoc t (text_bytes ts) ys in
      let rest : List ℕ = text_bytes ts ++ ys in
      ap (λ bs. copy_strings alloc (suc (length ts)) (length t ∷ bs) 0 k) eq
      ∙ (ap₂ (λ ok r. stored ok (words (length t) (length t ∷ (t ++ rest)) 1) r) (granted k)
            (copy_strings-append (length ts) (length t ∷ t) rest (0 + (1 + length t)) 0 (k + 1)
                (omega arith)
              ∙ copy_strings_lem ts ys (k + 1))
          ∙ ap (λ u. stored true u (some (map terminated ts)))
              (words-append (length t) (length t ∷ []) (t ++ rest) 1 0 refl ∙ words_all t rest))

  pub step :
      (fuel : ℕ) (bytes : List ℕ) (c c' : Content) (type size : ℕ)
      → 2 ≤ length bytes
      → read_u16 bytes 0 ≡ type
      → type ≢ 0xFFFF
      → read_u16 bytes 2 ≡ size
      → parse_category alloc type size (drop 4 bytes) c ≡ (true, c')
      → parse_categories alloc (suc fuel) bytes c
        ≡ parse_categories alloc fuel (drop (2 * size) (drop 4 bytes)) c'
  unfolding parse_categories
  step fuel bytes c c' type size l t t' s p = ground arith

read_sms_lem :
    (sms : List (SmSetting × (ℕ × ℕ))) (ys : List ℕ)
    → WordSms sms
    → read_sms (length sms) (sm_bytes sms ++ ys) ≡ map (λ s. s.0) sms
unfolding read_sms sm_bytes read_sm
read_sms_lem [] ys w = refl
read_sms_lem ((s, st) ∷ sms) ys w =
    ap₂ (λ (r : SmSetting) (rs : List SmSetting). r ∷ rs)
      (ap₂ (λ (a b : ℕ). record s { physical_start_address = a; length = b })
        (u16_bytes s.physical_start_address w.0.0) (u16_bytes s.length w.0.1))
      (read_sms_lem sms ys w.1)

length-sm_bytes : (sms : List (SmSetting × (ℕ × ℕ))) → length (sm_bytes sms) ≡ 8 * length sms
unfolding sm_bytes
length-sm_bytes [] = refl
length-sm_bytes ((s, st) ∷ sms) = omega (arith, length-sm_bytes sms)

module _ (alloc : ℕ → Bool) (granted : (k : ℕ) → alloc k ≡ true) where
  fetched :
      (bytes : List ℕ) (c : Content) (n : ℕ) (ss : List (List ℕ))
      → read_u8 bytes 0 ≡ suc n
      → copy_strings alloc (suc n) bytes 1 (c.allocs + 1) ≡ some ss
      → fetch_sii_strings alloc bytes c ≡ stored_strings (some ss) (suc n) c
  unfolding fetch_sii_strings
  fetched bytes c n ss r e = let g : alloc c.allocs ≡ true = granted c.allocs in ground arith

  parse_strings :
      (texts : List (List ℕ)) (bytes : List ℕ) (c : Content)
      → fetch_sii_strings alloc (length texts ∷ (text_bytes texts ++ bytes)) c
        ≡ (true, with_strings texts c)
  unfolding fetch_sii_strings
  parse_strings [] bytes c = refl
  parse_strings (t ∷ ts) bytes c =
      fetched (suc (length ts) ∷ (text_bytes (t ∷ ts) ++ bytes)) c (length ts)
        (map terminated (t ∷ ts)) refl
        (copy_strings-append alloc granted (suc (length ts)) (suc (length ts) ∷ [])
            (text_bytes (t ∷ ts) ++ bytes) 1 0 (c.allocs + 1) refl
          ∙ copy_strings_lem alloc granted (t ∷ ts) bytes (c.allocs + 1))

  parse_sms :
      (sms : List (SmSetting × (ℕ × ℕ))) (size : ℕ) (ys : List ℕ) (c : Content)
      → (length sms < 256) × WordSms sms
      → length (sm_bytes sms) ≡ 2 * size
      → fetch_sms alloc size (sm_bytes sms ++ ys) c ≡ (true, apply (Category.sync_managers sms) c)
  unfolding fetch_sms apply
  parse_sms sms size ys c f l =
      let n : size * 2 / 8 % 256 ≡ length sms = omega (arith, length-sm_bytes sms, f.0) in
      let r : read_sms (size * 2 / 8 % 256) (sm_bytes sms ++ ys) ≡ map (λ s. s.0) sms =
        ap (λ m. read_sms m (sm_bytes sms ++ ys)) n ∙ read_sms_lem sms ys f.1 in
      let g : alloc c.allocs ≡ true = granted c.allocs in rw (g, r, n) refl

  pub parse_body :
      (cat : Category) (size : ℕ) (ys : List ℕ) (c : Content)
      → Fits cat
      → length (body cat) ≡ 2 * size
      → parse_category alloc (type_of cat) size (body cat ++ ys) c ≡ (true, apply cat c)
  unfolding parse_category Fits apply
  parse_body (Category.strings texts pad) size ys c f l =
      ap (λ bs. fetch_sii_strings alloc (length texts ∷ bs) c)
        (append_assoc (text_bytes texts) pad ys)
      ∙ parse_strings texts (pad ++ ys) c
  parse_body (Category.general fields pad) size ys c f l =
      ap (λ bs. (true, record c { has_general = true; general = bs }))
        (ap (λ n. words n ((fields ++ pad) ++ ys) 0) (sym f)
          ∙ (ap (λ bs. words (length fields) bs 0) (append_assoc fields pad ys)
              ∙ words_all fields (pad ++ ys)))
  parse_body (Category.sync_managers sms) size ys c f l = parse_sms sms size ys c f l
  parse_body (Category.other type bs) size ys c f l = ground arith
