-- ===== src/Shell/Hex.antt =====
-- parse_hex_string of src/ec_cmd.c reads back the bytes that are written in hexadecimal.
use cherry_ecat.Prelude.{
  ℕ, zero, suc, ◌+◌, ◌*◌, ◌/◌, ◌%◌, ◌≤◌, ◌<◌, ◌≡◌, refl, ap, ◌∙◌, List, [], ◌∷◌, Bool, true, false,
  Option, none, some, ◌&&◌, ◌||◌, ◌==◌, leb, ltb, length, if◌then◌else◌, arith, Bool-cases, inl,
  inr,
}
use cherry_ecat.Shell.{hex_char_to_num, skip_prefix, put_pair, parse_pairs, parse_hex_string}

-- The digit of a number below 16, in small or in large letters.
abbrev pub digit : Bool → ℕ → ℕ
digit large n = if ltb n 10 then 48 + n else if large then 55 + n else 87 + n

unfoldable pub hex : Bool → List ℕ → List ℕ
hex large [] = []
hex large (b ∷ bs) = digit large (b / 16) ∷ digit large (b % 16) ∷ hex large bs

abbrev pub AreBytes : List ℕ → Type 0
AreBytes [] = Unit
AreBytes (b ∷ bs) = (b < 256) × AreBytes bs

-- With or without the prefix "0x".
abbrev pub prefixed : Bool → List ℕ → List ℕ
prefixed true s = 48 ∷ 120 ∷ s
prefixed false s = s

digit_lem : (large : Bool) (n : ℕ) → n < 16 → hex_char_to_num (digit large n) ≡ some n
unfolding hex_char_to_num
digit_lem true n h = ground arith
digit_lem false n h = ground arith

digit_range : (large : Bool) (n : ℕ) → n < 16 → digit large n ≤ 102
digit_range true n h = ground arith
digit_range false n h = ground arith

digit_not_x : (large : Bool) (n : ℕ) → n < 16 → (digit large n == 88) ≡ false
digit_not_x true n h = ground arith
digit_not_x false n h = ground arith

length-hex : (large : Bool) (bs : List ℕ) → length (hex large bs) ≡ 2 * length bs
unfolding hex
length-hex large [] = refl
length-hex large (b ∷ bs) = omega (arith, length-hex large bs)

-- What is read of `bs` with room for `left` bytes.
abbrev pub fitting : ℕ → List ℕ → Option (List ℕ)
fitting left bs = if leb (length bs) left then some bs else none

put_pair_lem :
    (b : ℕ) (bs : List ℕ) (left : ℕ)
    → b < 256
    → put_pair (some (b / 16)) (some (b % 16)) (fitting left bs) ≡ fitting (suc left) (b ∷ bs)
put_pair_lem b bs left h = elim (Bool-cases (leb (length bs) left)) [
  | inl e ↦
      let v : (16 * (b / 16) + b % 16) % 256 ≡ b = omega arith in
      let g : leb (suc (length bs)) (suc left) ≡ true = ground arith in
      rw (e, g) (ap (λ x. some (x ∷ bs)) v)
  | inr e ↦ let g : leb (suc (length bs)) (suc left) ≡ false = ground arith in rw (e, g) refl
]

pairs_lem :
    (large : Bool) (bs : List ℕ) (left : ℕ)
    → AreBytes bs
    → parse_pairs left (hex large bs) ≡ fitting left bs
unfolding parse_pairs hex
pairs_lem large [] left a = ground arith
pairs_lem large (b ∷ bs) zero a = ground arith
pairs_lem large (b ∷ bs) (suc left) a =
    rw
      (
        digit_lem large (b / 16) (omega (arith, a.0)),
        digit_lem large (b % 16) (omega arith),
        pairs_lem large bs left a.1,
      )
      (put_pair_lem b bs left a.0)

if_then {ℓ} : {A : Type ℓ} (c : Bool) (x y : A) → c ≡ true → (if c then x else y) ≡ x
if_then true x y h = refl
if_then false x y h = absurd (ground arith)

if_else {ℓ} : {A : Type ℓ} (c : Bool) (x y : A) → c ≡ false → (if c then x else y) ≡ y
if_else true x y h = absurd (ground arith)
if_else false x y h = refl

no_prefix : (p : Bool) (d : ℕ) → d ≤ 102 → (d == 88) ≡ false → (p && (d == 120 || d == 88)) ≡ false
no_prefix true d h e = ground arith
no_prefix false d h e = refl

skip_lem :
    (large with_prefix : Bool) (bs : List ℕ)
    → AreBytes bs
    → skip_prefix (prefixed with_prefix (hex large bs)) ≡ hex large bs
unfolding skip_prefix hex
skip_lem large true bs a = refl
skip_lem large false [] a = refl
skip_lem large false (b ∷ bs) a =
    if_else
      (digit large (b / 16) == 48 && (digit large (b % 16) == 120 || digit large (b % 16) == 88))
      (hex large bs) (digit large (b / 16) ∷ digit large (b % 16) ∷ hex large bs)
      (no_prefix (digit large (b / 16) == 48) (digit large (b % 16))
        (digit_range large (b % 16) (omega arith)) (digit_not_x large (b % 16) (omega arith)))

even : (n m : ℕ) → n ≡ 2 * m → (n % 2 == 0) ≡ true
even n m h = ground arith

-- A string of the digits of bytes, in small or in large letters and with or without "0x" in front, is
-- read back as these bytes if there is room for them, and refused otherwise.
pub parse_hex_string-hex :
    (large with_prefix : Bool) (bs : List ℕ) (max_len : ℕ)
    → AreBytes bs
    → parse_hex_string (prefixed with_prefix (hex large bs)) max_len ≡ fitting max_len bs
unfolding parse_hex_string
parse_hex_string-hex large with_prefix bs max_len a = rw (skip_lem large with_prefix bs a) (
    if_then (length (hex large bs) % 2 == 0) (parse_pairs max_len (hex large bs)) none
      (even (length (hex large bs)) (length bs) (length-hex large bs))
    ∙ pairs_lem large bs max_len a)
