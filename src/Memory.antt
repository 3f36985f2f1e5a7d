-- ===== src/Memory.antt =====
-- src/ec_common.c: ec_memcpy and ec_memset, which go to the hosts' words where they can. An area is
-- the list of its bytes; of an address only its remainder matters. The areas of a copy do not
-- overlap. The result is what stands in the target afterwards.
pub mod Copied
use cherry_ecat.Prelude.{
  ℕ, zero, suc, ◌+◌, ◌-◌, ◌*◌, ◌%◌, List, [], ◌∷◌, ◌++◌, ◌==◌, leb, if◌then◌else◌, length, drop,
  replicate, read_u32, bytes_u32,
}

-- A word that is read and stored: through a uint32_t, or by dword2array, low byte first.
abbrev pub dword : List ℕ → List ℕ
dword bs = bytes_u32 (read_u32 bs 0)

-- The bytes up to the first address that is a multiple of 4: those copied, and those left.
unfoldable pub copy_unaligned : ℕ → List ℕ → List ℕ × List ℕ
copy_unaligned addr [] = ([], [])
copy_unaligned addr (b ∷ bs) =
    let r = copy_unaligned (addr + 1) bs in if addr % 4 == 0 then ([], b ∷ bs) else (b ∷ r.0, r.1)

-- The loop with four words a turn.
unfoldable pub copy_blocks : ℕ → List ℕ → List ℕ × List ℕ
copy_blocks zero bs = ([], bs)
copy_blocks (suc fuel) bs =
    let r = copy_blocks fuel (drop 16 bs) in
    if leb 16 (length bs)
    then (
      dword bs ++ (dword (drop 4 bs) ++ (dword (drop 8 bs) ++ (dword (drop 12 bs) ++ r.0))),
      r.1,
    )
    else ([], bs)

-- The loop with one word a turn.
unfoldable pub copy_dwords : ℕ → List ℕ → List ℕ × List ℕ
copy_dwords zero bs = ([], bs)
copy_dwords (suc fuel) bs =
    let r = copy_dwords fuel (drop 4 bs) in
    if leb 4 (length bs) then (dword bs ++ r.0, r.1) else ([], bs)

-- The three loops behind the first, which end the copy.
unfoldable pub copy_rest : List ℕ → List ℕ
copy_rest bs =
    let blocks = copy_blocks (length bs) bs in
    let dwords = copy_dwords (length blocks.1) blocks.1 in blocks.0 ++ (dwords.0 ++ dwords.1)

-- ec_memcpy, from the address `b2` to `b1`: the first loop aligns both, or else the source.
unfoldable pub memcpy : ℕ → ℕ → List ℕ → List ℕ
memcpy b1 b2 src =
    let both = copy_unaligned b1 src in
    let one = copy_unaligned b2 src in
    if b1 % 4 == b2 % 4 then both.0 ++ copy_rest both.1 else one.0 ++ copy_rest one.1

-- ec_memset: the bytes up to the first address that is a multiple of 4, and how many are left.
unfoldable pub fill_unaligned : ℕ → ℕ → ℕ → List ℕ × ℕ
fill_unaligned addr c zero = ([], 0)
fill_unaligned addr c (suc n) =
    let r = fill_unaligned (addr + 1) c n in
    if addr % 4 == 0 then ([], suc n) else (c % 256 ∷ r.0, r.1)

-- The word that the byte `c` fills.
abbrev pub filled_dword : ℕ → ℕ
filled_dword c = c % 256 + 256 * (c % 256) + 65536 * (c % 256) + 16777216 * (c % 256)

unfoldable pub fill_blocks : ℕ → ℕ → ℕ → List ℕ × ℕ
fill_blocks zero w n = ([], n)
fill_blocks (suc fuel) w n =
    let r = fill_blocks fuel w (n - 16) in
    if leb 16 n
    then (bytes_u32 w ++ (bytes_u32 w ++ (bytes_u32 w ++ (bytes_u32 w ++ r.0))), r.1)
    else ([], n)

unfoldable pub fill_dwords : ℕ → ℕ → ℕ → List ℕ × ℕ
fill_dwords zero w n = ([], n)
fill_dwords (suc fuel) w n =
    let r = fill_dwords fuel w (n - 4) in if leb 4 n then (bytes_u32 w ++ r.0, r.1) else ([], n)

-- ec_memset of `n` bytes at the address `s`.
unfoldable pub memset : ℕ → ℕ → ℕ → List ℕ
memset s c n =
    let first = fill_unaligned s c n in
    let blocks = fill_blocks first.1 (filled_dword c) first.1 in
    let dwords = fill_dwords blocks.1 (filled_dword c) blocks.1 in
    first.0 ++ (blocks.0 ++ (dwords.0 ++ replicate dwords.1 (c % 256)))
