-- ===== src/Prelude/Bytes.antt =====
-- Byte buffers and little-endian words: EC_READ_U8 to EC_READ_U64, EC_WRITE_U8 to EC_WRITE_U64
-- of include/ec_util.h, memset and memcpy on a prefix. A buffer is the list of its bytes; a write
-- out of its bounds changes nothing and a read out of its bounds gives 0, and the proofs that
-- depend on a write state that the buffer is long enough.
use Prim.Native.Nat.{ℕ, zero, suc, ◌+◌, ◌-◌, ◌*◌, ◌/◌, ◌%◌, ◌^◌}
use mathlib.Core.Path.{◌≡◌, refl, ap}
use mathlib.Core.List.{List, [], ◌∷◌}
use mathlib.Core.Bool.{Bool}
use native.Mathlib.Omega.{arith}
use cherry_ecat.Prelude.Tests.{◌==◌}
use cherry_ecat.Prelude.Lists.{length, get_or, set, length-set}

abbrev pub u8_mod : ℕ
u8_mod = 2 ^ 8

abbrev pub u16_mod : ℕ
u16_mod = 2 ^ 16

abbrev pub u32_mod : ℕ
u32_mod = 2 ^ 32

abbrev pub u64_mod : ℕ
u64_mod = 2 ^ 64

-- Unsigned subtraction at a width given by its modulus, for operands below the modulus.
abbrev pub sub_mod : ℕ → ℕ → ℕ → ℕ
sub_mod m a b = (a + m - b) % m

-- Whether bit `k` of `x` is set: `x & (1 << k)`.
abbrev pub test_bit : ℕ → ℕ → Bool
test_bit x k = x / 2 ^ k % 2 == 1

abbrev pub read_u8 : List ℕ → ℕ → ℕ
read_u8 bs i = get_or bs i 0

abbrev pub read_u16 : List ℕ → ℕ → ℕ
read_u16 bs i = read_u8 bs i + 256 * read_u8 bs (i + 1)

abbrev pub read_u32 : List ℕ → ℕ → ℕ
read_u32 bs i = read_u16 bs i + 65536 * read_u16 bs (i + 2)

abbrev pub read_u64 : List ℕ → ℕ → ℕ
read_u64 bs i = read_u32 bs i + 4294967296 * read_u32 bs (i + 4)

abbrev pub write_u8 : List ℕ → ℕ → ℕ → List ℕ
write_u8 bs i v = set bs i (v % 256)

abbrev pub write_u16 : List ℕ → ℕ → ℕ → List ℕ
write_u16 bs i v = write_u8 (write_u8 bs i v) (i + 1) (v / 256)

abbrev pub write_u32 : List ℕ → ℕ → ℕ → List ℕ
write_u32 bs i v = write_u16 (write_u16 bs i v) (i + 2) (v / 65536)

abbrev pub write_u64 : List ℕ → ℕ → ℕ → List ℕ
write_u64 bs i v = write_u32 (write_u32 bs i v) (i + 4) (v / 4294967296)

-- memset(bs, 0, n)
abbrev pub zero_prefix : ℕ → List ℕ → List ℕ
zero_prefix zero bs = bs
zero_prefix (suc n) [] = []
zero_prefix (suc n) (b ∷ bs) = 0 ∷ zero_prefix n bs

-- memcpy(bs, src, length src) into the buffer `bs`
abbrev pub copy_into : List ℕ → List ℕ → List ℕ
copy_into [] bs = bs
copy_into (x ∷ src) [] = []
copy_into (x ∷ src) (b ∷ bs) = x ∷ copy_into src bs

-- memcpy(bs + i, src, length src)
abbrev pub copy_at : ℕ → List ℕ → List ℕ → List ℕ
copy_at zero src bs = copy_into src bs
copy_at (suc i) src [] = []
copy_at (suc i) src (b ∷ bs) = b ∷ copy_at i src bs

-- The bytes of a 16-bit and a 32-bit word, low byte first.
abbrev pub bytes_u16 : ℕ → List ℕ
bytes_u16 v = v % 256 ∷ v / 256 % 256 ∷ []

abbrev pub bytes_u32 : ℕ → List ℕ
bytes_u32 v = v % 256 ∷ v / 256 % 256 ∷ v / 65536 % 256 ∷ v / 16777216 % 256 ∷ []

pub length-zero_prefix : (n : ℕ) (bs : List ℕ) → length (zero_prefix n bs) ≡ length bs
length-zero_prefix zero bs = refl
length-zero_prefix (suc n) [] = refl
length-zero_prefix (suc n) (b ∷ bs) = ap suc (length-zero_prefix n bs)

pub length-copy_into : (src bs : List ℕ) → length (copy_into src bs) ≡ length bs
length-copy_into [] bs = refl
length-copy_into (x ∷ src) [] = refl
length-copy_into (x ∷ src) (b ∷ bs) = ap suc (length-copy_into src bs)

pub length-copy_at : (i : ℕ) (src bs : List ℕ) → length (copy_at i src bs) ≡ length bs
length-copy_at zero src bs = length-copy_into src bs
length-copy_at (suc i) src [] = refl
length-copy_at (suc i) src (b ∷ bs) = ap suc (length-copy_at i src bs)

pub length-write_u16 : (bs : List ℕ) (i v : ℕ) → length (write_u16 bs i v) ≡ length bs
length-write_u16 bs i v =
    omega
      (arith, length-set (set bs i (v % 256)) (i + 1) (v / 256 % 256), length-set bs i (v % 256))
