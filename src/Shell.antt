-- ===== src/Shell.antt =====
-- src/ec_cmd.c: the bytes that the shell reads from a string of hexadecimal digits. A string is the
-- list of its characters without the terminating 0.
pub mod Hex
use cherry_ecat.Prelude.{
  ℕ, zero, suc, ◌+◌, ◌-◌, ◌*◌, ◌%◌, List, [], ◌∷◌, Bool, Option, none, some, ◌&&◌, ◌||◌, ◌==◌, leb,
  ltb, length, if◌then◌else◌,
}

-- hex_char_to_num: none for -1.
unfoldable pub hex_char_to_num : ℕ → Option ℕ
hex_char_to_num c =
    if leb 48 c && leb c 57
    then some (c - 48)
    else if leb 97 c && leb c 102
    then some (c - 97 + 10)
    else if leb 65 c && leb c 70
    then some (c - 65 + 10)
    else none

-- Behind "0x" or "0X".
unfoldable pub skip_prefix : List ℕ → List ℕ
skip_prefix [] = []
skip_prefix (a ∷ []) = a ∷ []
skip_prefix (a ∷ b ∷ rest) = if a == 48 && (b == 120 || b == 88) then rest else a ∷ b ∷ rest

-- A pair of digits, in front of the bytes behind it.
abbrev pub put_pair : Option ℕ → Option ℕ → Option (List ℕ) → Option (List ℕ)
put_pair (some high) (some low) (some bytes) = some ((16 * high + low) % 256 ∷ bytes)
put_pair high low rest = none

-- The loop, with room for `left` bytes, and what follows it.
unfoldable pub parse_pairs : ℕ → List ℕ → Option (List ℕ)
unfolding hex_char_to_num
parse_pairs left [] = some []
parse_pairs left (c ∷ []) = none
parse_pairs zero (a ∷ b ∷ rest) = none
parse_pairs (suc left) (a ∷ b ∷ rest) =
    put_pair (hex_char_to_num a) (hex_char_to_num b) (parse_pairs left rest)

-- parse_hex_string: none for -1; the number of bytes is the length of the list.
unfoldable pub parse_hex_string : List ℕ → ℕ → Option (List ℕ)
unfolding skip_prefix parse_pairs
parse_hex_string hex_str max_len =
    let digits = skip_prefix hex_str in
    if length digits % 2 == 0 then parse_pairs max_len digits else none
