-- ===== src/Tests/Memory.antt =====
-- Runs of ec_memcpy and ec_memset of src/ec_common.c.
use cherry_ecat.Prelude.{◌≡◌, refl, List, [], ◌∷◌, ℕ, replicate, arith}
use cherry_ecat.Memory.{copy_blocks, copy_dwords, copy_unaligned, copy_rest, memcpy, memset}
use cherry_ecat.Memory.Copied.{memcpy_lem, memset_lem}

abbrev six_bytes : List ℕ
six_bytes = 1 ∷ 2 ∷ 255 ∷ 4 ∷ 0 ∷ 6 ∷ []

memcpy_run : memcpy 3 2 (replicate 23 77) ≡ replicate 23 77
unfolding memcpy copy_unaligned copy_rest copy_blocks copy_dwords
memcpy_run = refl

memcpy_example : memcpy 3 7 six_bytes ≡ six_bytes
memcpy_example =
    memcpy_lem 3 7 six_bytes
      (omega arith, (omega arith, (omega arith, (omega arith, (omega arith, (omega arith, tt))))))

memset_example : memset 2 511 21 ≡ replicate 21 255
memset_example = memset_lem 2 511 21
