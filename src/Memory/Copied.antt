-- ===== src/Memory/Copied.antt =====
-- ec_memcpy and ec_memset of src/ec_common.c against the copy and the filling byte by byte.
use cherry_ecat.Prelude.{
  ℕ, zero, suc, ◌+◌, ◌-◌, ◌%◌, ◌≤◌, ◌<◌, ◌≡◌, refl, sym, ap, ap₂, ◌∙◌, List, [], ◌∷◌, ◌++◌,
  Bool-cases, inl, inr, ◌==◌, leb, length, length-drop, drop, replicate, bytes_u32, arith,
}
use cherry_ecat.Memory.{
  dword, copy_unaligned, copy_blocks, copy_dwords, copy_rest, memcpy, fill_unaligned, filled_dword,
  fill_blocks, fill_dwords, memset,
}

-- The elements are bytes.
abbrev pub AreBytes : List ℕ → Type 0
AreBytes [] = Unit {0}
AreBytes (b ∷ bs) = (b < 256) × AreBytes bs

AreBytes-drop : (n : ℕ) (bs : List ℕ) → AreBytes bs → AreBytes (drop n bs)
AreBytes-drop zero bs h = h
AreBytes-drop (suc n) [] h = tt
AreBytes-drop (suc n) (b ∷ bs) h = AreBytes-drop n bs h.1

-- A word that was read from four bytes is stored as these four bytes.
dword-drop : (bs : List ℕ) → AreBytes bs → 4 ≤ length bs → dword bs ++ drop 4 bs ≡ bs
dword-drop [] h k = absurd (omega arith)
dword-drop (a ∷ []) h k = absurd (omega arith)
dword-drop (a ∷ b ∷ []) h k = absurd (omega arith)
dword-drop (a ∷ b ∷ c ∷ []) h k = absurd (omega arith)
dword-drop (a ∷ b ∷ c ∷ d ∷ bs) h k = ap₂ ◌∷◌ (omega (arith, h.0, h.1.0, h.1.1.0, h.1.1.1.0)) (
    ap₂ ◌∷◌ (omega (arith, h.0, h.1.0, h.1.1.0, h.1.1.1.0)) (
      ap₂ ◌∷◌ (omega (arith, h.0, h.1.0, h.1.1.0, h.1.1.1.0))
        (ap₂ ◌∷◌ (omega (arith, h.0, h.1.0, h.1.1.0, h.1.1.1.0)) refl)))

copy_unaligned-append : (addr : ℕ) (bs : List ℕ) → let r = copy_unaligned addr bs in r.0 ++ r.1 ≡ bs
unfolding copy_unaligned
copy_unaligned-append addr [] = refl
copy_unaligned-append addr (b ∷ bs) = elim (Bool-cases (addr % 4 == 0)) [
  | inl e ↦ rw e refl
  | inr e ↦ rw e (ap (λ (xs : List ℕ). b ∷ xs) (copy_unaligned-append (addr + 1) bs))
]

AreBytes-copy_unaligned :
    (addr : ℕ) (bs : List ℕ) → AreBytes bs → AreBytes (copy_unaligned addr bs).1
unfolding copy_unaligned
AreBytes-copy_unaligned addr [] h = tt
AreBytes-copy_unaligned addr (b ∷ bs) h = elim (Bool-cases (addr % 4 == 0)) [
  | inl e ↦ rw e h
  | inr e ↦ rw e (AreBytes-copy_unaligned (addr + 1) bs h.1)
]

drop-nil : (n : ℕ) → drop {A = ℕ} n [] ≡ []
drop-nil zero = refl
drop-nil (suc n) = refl

drop-drop : (m n : ℕ) (bs : List ℕ) → drop n (drop m bs) ≡ drop (m + n) bs
drop-drop zero n bs = ap (λ (k : ℕ). drop k bs) (omega arith)
drop-drop (suc m) n [] = drop-nil n ∙ sym (drop-nil (suc m + n))
drop-drop (suc m) n (b ∷ bs) =
    drop-drop m n bs ∙ ap (λ (k : ℕ). drop k (b ∷ bs)) {x = suc (m + n)} (omega arith)

-- Copying a word, then what follows it.
dword-step :
    (n : ℕ) (bs xs : List ℕ)
    → AreBytes bs
    → 4 + n ≤ length bs
    → xs ≡ drop (n + 4) bs
    → dword (drop n bs) ++ xs ≡ drop n bs
dword-step n bs xs h k e =
    ap (λ (ys : List ℕ). dword (drop n bs) ++ ys) (e ∙ sym (drop-drop n 4 bs))
    ∙ dword-drop (drop n bs) (AreBytes-drop n bs h) (omega (arith, length-drop n bs))

copy_blocks-append :
    (fuel : ℕ) (bs : List ℕ) → AreBytes bs → (copy_blocks fuel bs).0 ++ (copy_blocks fuel bs).1 ≡ bs
unfolding copy_blocks
copy_blocks-append zero bs h = refl
copy_blocks-append (suc fuel) bs h = elim (Bool-cases (leb 16 (length bs))) [
  | inl e ↦ rw e (
      dword-step 0 bs _ h (ground (arith, e)) (
        dword-step 4 bs _ h (ground (arith, e)) (
          dword-step 8 bs _ h (ground (arith, e)) (
            dword-step 12 bs _ h (ground (arith, e))
              (copy_blocks-append fuel (drop 16 bs) (AreBytes-drop 16 bs h))))))
  | inr e ↦ rw e refl
]

AreBytes-copy_blocks : (fuel : ℕ) (bs : List ℕ) → AreBytes bs → AreBytes (copy_blocks fuel bs).1
unfolding copy_blocks
AreBytes-copy_blocks zero bs h = h
AreBytes-copy_blocks (suc fuel) bs h = elim (Bool-cases (leb 16 (length bs))) [
  | inl e ↦ rw e (AreBytes-copy_blocks fuel (drop 16 bs) (AreBytes-drop 16 bs h))
  | inr e ↦ rw e h
]

copy_dwords-append :
    (fuel : ℕ) (bs : List ℕ) → AreBytes bs → (copy_dwords fuel bs).0 ++ (copy_dwords fuel bs).1 ≡ bs
unfolding copy_dwords
copy_dwords-append zero bs h = refl
copy_dwords-append (suc fuel) bs h = elim (Bool-cases (leb 4 (length bs))) [
  | inl e ↦ rw e (
      dword-step 0 bs _ h (ground (arith, e))
        (copy_dwords-append fuel (drop 4 bs) (AreBytes-drop 4 bs h)))
  | inr e ↦ rw e refl
]

copy_rest_lem : (bs : List ℕ) → AreBytes bs → copy_rest bs ≡ bs
unfolding copy_rest
copy_rest_lem bs h =
    ap (λ (xs : List ℕ). (copy_blocks (length bs) bs).0 ++ xs)
      (copy_dwords-append _ (copy_blocks (length bs) bs).1 (AreBytes-copy_blocks (length bs) bs h))
    ∙ copy_blocks-append (length bs) bs h

copy_unaligned-rest :
    (addr : ℕ) (bs : List ℕ)
    → AreBytes bs
    → (copy_unaligned addr bs).0 ++ copy_rest (copy_unaligned addr bs).1 ≡ bs
copy_unaligned-rest addr bs h =
    ap (λ (xs : List ℕ). (copy_unaligned addr bs).0 ++ xs)
      (copy_rest_lem (copy_unaligned addr bs).1 (AreBytes-copy_unaligned addr bs h))
    ∙ copy_unaligned-append addr bs

-- For all addresses, ec_memcpy of a list of bytes leaves exactly these bytes in the target.
pub memcpy_lem : (b1 b2 : ℕ) (src : List ℕ) → AreBytes src → memcpy b1 b2 src ≡ src
unfolding memcpy
memcpy_lem b1 b2 src h = elim (Bool-cases (b1 % 4 == b2 % 4)) [
  | inl e ↦ rw e (copy_unaligned-rest b1 src h)
  | inr e ↦ rw e (copy_unaligned-rest b2 src h)
]

-- A part of the filling: the bytes written and the number of those left.
Fills : ℕ → ℕ → List ℕ × ℕ → Type 0
Fills c n r = r.0 ++ replicate r.1 (c % 256) ≡ replicate n (c % 256)

fill_unaligned-Fills : (addr c n : ℕ) → Fills c n (fill_unaligned addr c n)
unfolding fill_unaligned Fills
fill_unaligned-Fills addr c zero = refl
fill_unaligned-Fills addr c (suc n) = elim (Bool-cases (addr % 4 == 0)) [
  | inl e ↦ rw e refl
  | inr e ↦ rw e (ap (λ (xs : List ℕ). c % 256 ∷ xs) (fill_unaligned-Fills (addr + 1) c n))
]

-- A filled word.
filled-bytes :
    (c n : ℕ) (xs : List ℕ)
    → 4 ≤ n
    → xs ≡ replicate (n - 4) (c % 256)
    → bytes_u32 (filled_dword c) ++ xs ≡ replicate n (c % 256)
filled-bytes c n xs h e =
    four ∙ ap (λ (k : ℕ). replicate k (c % 256)) {x = suc (suc (suc (suc (n - 4))))} (omega arith)
  where
    four : bytes_u32 (filled_dword c) ++ xs ≡ replicate (suc (suc (suc (suc (n - 4))))) (c % 256)
    four =
        ap₂ ◌∷◌ (omega arith)
          (ap₂ ◌∷◌ (omega arith) (ap₂ ◌∷◌ (omega arith) (ap₂ ◌∷◌ (omega arith) e)))

fill_blocks-Fills : (fuel c n : ℕ) → Fills c n (fill_blocks fuel (filled_dword c) n)
unfolding fill_blocks Fills
fill_blocks-Fills zero c n = refl
fill_blocks-Fills (suc fuel) c n = elim (Bool-cases (leb 16 n)) [
  | inl e ↦ rw e (
      filled-bytes c n _ (ground (arith, e)) (
        filled-bytes c (n - 4) _ (ground (arith, e)) (
          filled-bytes c (n - 4 - 4) _ (ground (arith, e)) (
            filled-bytes c (n - 4 - 4 - 4) _ (ground (arith, e)) (
              fill_blocks-Fills fuel c (n - 16)
              ∙ ap (λ (k : ℕ). replicate k (c % 256)) (omega arith))))))
  | inr e ↦ rw e refl
]

fill_dwords-Fills : (fuel c n : ℕ) → Fills c n (fill_dwords fuel (filled_dword c) n)
unfolding fill_dwords Fills
fill_dwords-Fills zero c n = refl
fill_dwords-Fills (suc fuel) c n = elim (Bool-cases (leb 4 n)) [
  | inl e ↦ rw e (filled-bytes c n _ (ground (arith, e)) (fill_dwords-Fills fuel c (n - 4)))
  | inr e ↦ rw e refl
]

-- For every address, ec_memset writes `n` times the low byte of `c`.
pub memset_lem : (s c n : ℕ) → memset s c n ≡ replicate n (c % 256)
unfolding memset Fills
memset_lem s c n =
    ap (λ (xs : List ℕ). first.0 ++ xs)
      (ap (λ (xs : List ℕ). blocks.0 ++ xs) (fill_dwords-Fills blocks.1 c blocks.1)
        ∙ fill_blocks-Fills first.1 c first.1)
    ∙ fill_unaligned-Fills s c n
  where
    first : List ℕ × ℕ
    first = fill_unaligned s c n

    blocks : List ℕ × ℕ
    blocks = fill_blocks first.1 (filled_dword c) first.1

copy_blocks_end : (fuel : ℕ) (bs : List ℕ) → length bs ≤ fuel → length (copy_blocks fuel bs).1 < 16
unfolding copy_blocks
copy_blocks_end zero bs h = omega arith
copy_blocks_end (suc fuel) bs h = elim (Bool-cases (leb 16 (length bs))) [
  | inl e ↦ rw e (copy_blocks_end fuel (drop 16 bs) (ground (arith, e, length-drop 16 bs)))
  | inr e ↦ rw e (ground (arith, e))
]

copy_dwords_end : (fuel : ℕ) (bs : List ℕ) → length bs ≤ fuel → length (copy_dwords fuel bs).1 < 4
unfolding copy_dwords
copy_dwords_end zero bs h = omega arith
copy_dwords_end (suc fuel) bs h = elim (Bool-cases (leb 4 (length bs))) [
  | inl e ↦ rw e (copy_dwords_end fuel (drop 4 bs) (ground (arith, e, length-drop 4 bs)))
  | inr e ↦ rw e (ground (arith, e))
]

-- Both loops over words in ec_memcpy end by their own tests: the loop with four words leaves fewer
-- than 16 bytes, and the loop with one word fewer than 4.
pub copy_loops_end :
    (bs : List ℕ)
    → (length (copy_blocks (length bs) bs).1 < 16) × (length (copy_dwords (length bs) bs).1 < 4)
copy_loops_end bs =
    (copy_blocks_end (length bs) bs (omega arith), copy_dwords_end (length bs) bs (omega arith))
