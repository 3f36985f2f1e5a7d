-- ===== src/Slave/Content/Image.antt =====
-- The round trip from categories through the EEPROM image to the content of a slave, and the strings
-- that src/ec_slave.c hands out from it.
use cherry_ecat.Prelude.{
  ℕ, zero, suc, ◌*◌, ◌≤◌, ◌<◌, ◌≡◌, refl, sym, ap, ◌∙◌, List, [], ◌∷◌, ◌++◌, map, append_assoc,
  Bool, true, Option, none, some, length, drop, drop-append, length-append, read_u16, arith,
  get_elem?, leb, if◌then◌else◌,
}
use cherry_ecat.Slave.Content.{
  Content, parse_category, parse_categories, parse_image, get_sii_string,
}
use cherry_ecat.Slave.Content.Encode.{
  Category, body, type_of, encode, Fits, AllFit, terminated, with_strings, apply, apply_all,
}
use cherry_ecat.Slave.Content.Parsed.{step, parse_body, u16_bytes}

-- The strings of the last category of strings, or else those of before.
unfoldable pub texts_after : List (Category × ℕ) → List (List ℕ) → List (List ℕ)
texts_after [] ts = ts
texts_after ((Category.strings texts pad, size) ∷ cats) ts = texts_after cats texts
texts_after ((Category.general fields pad, size) ∷ cats) ts = texts_after cats ts
texts_after ((Category.sync_managers sms, size) ∷ cats) ts = texts_after cats ts
texts_after ((Category.other type bs, size) ∷ cats) ts = texts_after cats ts

-- ec_slave_get_sii_string gives the texts, counted from 1, and NULL for every other index.
unfoldable pub Hands : Content → List (List ℕ) → Type 0
Hands c texts =
    (get_sii_string c 0 ≡ none)
    × ((i : ℕ) → get_sii_string c (suc i) ≡ get_elem? (map terminated texts) i)

type_of_lt : (cat : Category) → Fits cat → type_of cat < 0xFFFF
unfolding Fits
type_of_lt (Category.strings texts pad) f = omega arith
type_of_lt (Category.general fields pad) f = omega arith
type_of_lt (Category.sync_managers sms) f = omega arith
type_of_lt (Category.other type bs) f = f.0

length-encode : (cats : List (Category × ℕ)) → length cats ≤ length (encode cats)
unfolding encode
length-encode [] = omega arith
length-encode ((cat, size) ∷ cats) =
    omega (arith, length-encode cats, length-append (body cat) (encode cats))

last :
    (alloc : ℕ → Bool) (fuel : ℕ) (bytes : List ℕ) (c : Content)
    → 2 ≤ length bytes
    → read_u16 bytes 0 ≡ 0xFFFF
    → parse_categories alloc (suc fuel) bytes c ≡ some (true, c)
unfolding parse_categories
last alloc fuel bytes c l t = ground arith

module _ (alloc : ℕ → Bool) (granted : (k : ℕ) → alloc k ≡ true) where
  parse_encoded :
      (cats : List (Category × ℕ)) (fuel : ℕ) (ys : List ℕ) (c : Content)
      → AllFit cats
      → length cats < fuel
      → parse_categories alloc fuel (encode cats ++ ys) c ≡ some (true, apply_all cats c)
  unfolding encode AllFit apply_all
  parse_encoded cats zero ys c f l = absurd (omega arith)
  parse_encoded [] (suc fuel) ys c f l = last alloc fuel (255 ∷ 255 ∷ ys) c (omega arith) refl
  parse_encoded ((cat, size) ∷ cats) (suc fuel) ys c f l =
      let short = type_of_lt cat f.0 in
      let e = append_assoc (body cat) (encode cats) ys in
      step alloc granted fuel (encode ((cat, size) ∷ cats) ++ ys) c (apply cat c) (type_of cat) size
        (omega arith) (u16_bytes (type_of cat) (omega arith)) (omega arith) (u16_bytes size f.1.0.0)
        (ap (λ bs. parse_category alloc (type_of cat) size bs c) e
          ∙ parse_body alloc granted cat size (encode cats ++ ys) c f.0 f.1.0.1)
      ∙ (ap (λ bs. parse_categories alloc fuel bs (apply cat c))
            (ap (drop (2 * size)) e ∙ drop-append (2 * size) (body cat) (encode cats ++ ys) f.1.0.1)
          ∙ parse_encoded cats fuel ys (apply cat c) f.1.1 (omega arith))

get_beyond : (xs : List (List ℕ)) (i : ℕ) → length xs ≤ i → get_elem? xs i ≡ none
get_beyond [] i h = refl
get_beyond (x ∷ xs) zero h = absurd (omega arith)
get_beyond (x ∷ xs) (suc i) h = get_beyond xs i (omega arith)

length-map : (ts : List (List ℕ)) → length (map terminated ts) ≡ length ts
length-map [] = refl
length-map (t ∷ ts) = ap suc (length-map ts)

handed :
    (ss : List (List ℕ)) (i n : ℕ)
    → n ≡ length ss
    → (if leb n i then none else get_elem? ss i) ≡ get_elem? ss i
handed ss i n h = let b : length ss ≤ i → get_elem? ss i ≡ none = get_beyond ss i in ground arith

no_strings : (o : Option (List ℕ)) (i n : ℕ) → n ≡ 0 → (if leb n i then none else o) ≡ none
no_strings o i n h = ground arith

with_strings-Hands : (texts : List (List ℕ)) (c : Content) → Hands (with_strings texts c) texts
unfolding Hands get_sii_string
with_strings-Hands [] c =
    (refl, λ i. no_strings (elim c.strings [ none ↦ none | some ss ↦ get_elem? ss i ]) i 0 refl)
with_strings-Hands (t ∷ ts) c =
    (refl, λ i. handed (map terminated (t ∷ ts)) i (suc (length ts)) (sym (length-map (t ∷ ts))))

apply_all-Hands :
    (cats : List (Category × ℕ)) (texts : List (List ℕ)) (c : Content)
    → Hands c texts
    → Hands (apply_all cats c) (texts_after cats texts)
unfolding apply_all apply texts_after Hands get_sii_string
apply_all-Hands [] texts c h = h
apply_all-Hands ((Category.strings ts pad, size) ∷ cats) texts c h =
    apply_all-Hands cats ts (with_strings ts c) (with_strings-Hands ts c)
apply_all-Hands ((Category.general fields pad, size) ∷ cats) texts c h =
    apply_all-Hands cats texts (apply (Category.general fields pad) c) h
apply_all-Hands ((Category.sync_managers sms, size) ∷ cats) texts c h =
    apply_all-Hands cats texts (apply (Category.sync_managers sms) c) h
apply_all-Hands ((Category.other type bs, size) ∷ cats) texts c h = apply_all-Hands cats texts c h

unstrung-Hands : (c : Content) → c.string_count ≡ 0 → Hands c []
unfolding Hands get_sii_string
unstrung-Hands c n = (
  refl,
  λ i. no_strings (elim c.strings [ none ↦ none | some ss ↦ get_elem? ss i ]) i c.string_count n,
)

-- Where the allocations succeed, parsing an image in which categories that fit stand behind the
-- first 128 bytes, with a terminating type 0xFFFF and any bytes behind it, ends without an error
-- and puts each category, in their order, into the content: its strings, its general data, its
-- sync managers. From a slave without strings, ec_slave_get_sii_string then gives each text of the
-- last category of strings with a terminating 0, and NULL for 0 and for an index behind them.
pub parse_image-encode :
    (alloc : ℕ → Bool)
    → ((k : ℕ) → alloc k ≡ true)
    → (cats : List (Category × ℕ)) (first ys : List ℕ) (c : Content) → length first ≡ 128
    → AllFit cats
    → c.string_count ≡ 0
    → (parse_image alloc (first ++ (encode cats ++ ys)) c ≡ some (true, apply_all cats c))
      × Hands (apply_all cats c) (texts_after cats [])
unfolding parse_image
parse_image-encode alloc granted cats first ys c l f n = (
  ap (λ bs. parse_categories alloc (length (first ++ (encode cats ++ ys))) bs c)
        (drop-append 128 first (encode cats ++ ys) l)
      ∙ parse_encoded alloc granted cats (length (first ++ (encode cats ++ ys))) ys c f (
          omega (
            arith,
            length-append first (encode cats ++ ys),
            length-append (encode cats) ys,
            length-encode cats,
          )),
  apply_all-Hands cats [] c (unstrung-Hands c n),
)
