-- ===== src/Tests/Content.antt =====
-- Runs of the parsing of src/ec_slave.c on an image with strings, general data, a sync manager and
-- a category of FMMUs.
use cherry_ecat.Prelude.{
  ◌≡◌, refl, true, false, List, [], ◌∷◌, ◌++◌, ℕ, some, none, arith, replicate, leb,
}
use cherry_ecat.Slave.Content.{Content, SmSetting, parse_image, fetch_sii_strings, copy_strings}
use cherry_ecat.Slave.Content.Encode.{
  Category, encode, text_bytes, sm_bytes, Fits, AllFit, apply_all,
}
use cherry_ecat.Slave.Content.Image.{Hands, texts_after, parse_image-encode}

abbrev no_content : Content
no_content = record {
  string_count = 0;
  strings = none;
  has_general = false;
  general = [];
  sm_count = 0;
  sm_info = none;
  allocs = 0;
}

abbrev mailbox_sm : SmSetting
mailbox_sm = record { physical_start_address = 0x1000; length = 256; control = 0x26; enable = 1 }

abbrev two_strings : List (List ℕ)
two_strings = (69 ∷ 76 ∷ []) ∷ (88 ∷ []) ∷ []

abbrev four_categories : List (Category × ℕ)
four_categories =
    (Category.strings two_strings [], 3)
    ∷ (Category.general (replicate 32 5) [], 16)
    ∷ (Category.sync_managers ((mailbox_sm, (0, 1)) ∷ []), 4)
    ∷ (Category.other 0x28 (1 ∷ 2 ∷ []), 1)
    ∷ []

four_categories-AllFit : AllFit four_categories
unfolding AllFit Fits text_bytes sm_bytes
four_categories-AllFit = (
  (omega arith, (omega arith, (omega arith, tt))),
  (
    (omega arith, refl),
    (
      refl,
      (
        (omega arith, refl),
        (
          (omega arith, ((omega arith, omega arith), tt)),
          (
            (omega arith, refl),
            ((omega arith, (omega arith, (omega arith, omega arith))), ((omega arith, refl), tt)),
          ),
        ),
      ),
    ),
  ),
)

-- Two strings, the string of which the third allocation fails, and an image without strings.
strings_run : fetch_sii_strings (λ k. true) (2 ∷ 2 ∷ 69 ∷ 76 ∷ 1 ∷ 88 ∷ []) no_content ≡ (
  true,
  record no_content {
    string_count = 2;
    strings = some ((69 ∷ 76 ∷ 0 ∷ []) ∷ (88 ∷ 0 ∷ []) ∷ []);
    allocs = 3;
  },
)
unfolding fetch_sii_strings copy_strings
strings_run = refl

out_of_memory :
    fetch_sii_strings (λ k. leb k 1) (2 ∷ 2 ∷ 69 ∷ 76 ∷ 1 ∷ 88 ∷ []) no_content
    ≡ (false, no_content)
unfolding fetch_sii_strings copy_strings
out_of_memory = refl

parse_image-encode_example :
    (parse_image (λ k. true) (replicate 128 9 ++ (encode four_categories ++ [])) no_content
      ≡ some (true, apply_all four_categories no_content))
    × Hands (apply_all four_categories no_content) (texts_after four_categories [])
parse_image-encode_example =
    parse_image-encode (λ k. true) (λ k. refl) four_categories (replicate 128 9) [] no_content refl
      four_categories-AllFit refl
