-- ===== src/Tests/Shell.antt =====
-- Runs of the parser of hexadecimal strings of src/ec_cmd.c.
use cherry_ecat.Prelude.{◌≡◌, refl, [], ◌∷◌, true, false, some, none, arith}
use cherry_ecat.Shell.{parse_hex_string}
use cherry_ecat.Shell.Hex.{hex, prefixed, fitting, parse_hex_string-hex}

parse_hex_string-hex_example :
    parse_hex_string (prefixed true (hex false (0xca ∷ 0x0f ∷ []))) 256
    ≡ fitting 256 (0xca ∷ 0x0f ∷ [])
parse_hex_string-hex_example =
    parse_hex_string-hex false true (0xca ∷ 0x0f ∷ []) 256 (omega arith, (omega arith, tt))

-- "1f", "1g" and "1"
three_strings :
    (parse_hex_string (49 ∷ 102 ∷ []) 4 ≡ some (31 ∷ []))
    × (parse_hex_string (49 ∷ 103 ∷ []) 4 ≡ none)
    × (parse_hex_string (49 ∷ []) 4 ≡ none)
unfolding parse_hex_string
three_strings = (refl, refl, refl)
