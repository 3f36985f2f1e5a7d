-- ===== src/Scan/Sized.antt =====
-- src/ec_slave.c, ec_slaves_scanning: the size of the EEPROM image, and that the loop over the category
-- headers uses a reading for each turn. The code does not bound the number of these turns.
use cherry_ecat.Prelude.{
  ℕ, zero, suc, ◌*◌, ◌/◌, ◌%◌, ◌≤◌, ◌<◌, ◌≡◌, refl, List, [], ◌∷◌, Bool, not, arith, length,
  length-append, bytes_u32, get_or, leb, ◌==◌, u16_mod,
}
use cherry_ecat.Exchange.{Io, Errno, fail_if, pure}
use cherry_ecat.Exchange.Facts.{
  Post, Post-next, Post-then, Post-if, Post-fail_if, Gives, Gives-any, Gives-next, Gives-if,
}
use cherry_ecat.Sii.{read}
use cherry_ecat.Sii.Waits.{Post-assign_master, Post-assign_pdi, Post-read_dwords}
use cherry_ecat.Sii.Results.{Whole, read-Whole}
use cherry_ecat.Scan.Image.{next_offset, goes_on, measure, nwords, dword_bytes, read_image}

-- A read that succeeds uses up an event at least.
read_once : (i o n : ℕ) (w : Io) → Post 1 (length w.events) (read i o n w)
unfolding read
read_once i o n w =
    Post-next 0 1 (length w.events) _ _ (Post-fail_if (not (n % 4 == 0)) Errno.inval w) λ _ a h.
      Post-next 0 1 (length a.events) _ _ (Post-fail_if (leb a.slave_count i) Errno.inval a)
        λ _ b k. Post-next 1 0 (length b.events) _ _ (Post-assign_master (a.slaves i) b) λ _ c p.
          Post-then 0 (length c.events) _ _ (Post-read_dwords (n / 4) (a.slaves i) o c) λ vs d q.
            Post-then 1 (length d.events) _ _ (Post-assign_pdi (a.slaves i) d) λ _ e r. omega arith

pub Post-measure :
    (fuel i o : ℕ) (w : Io) → length w.events < fuel → Post 0 (length w.events) (measure fuel i o w)
unfolding measure
Post-measure zero i o w h = absurd (omega arith)
Post-measure (suc fuel) i o w h = Post-then 1 (length w.events) _ _ (read_once i o 4 w) λ vs a k.
    let v = get_or vs 0 0 in
    Post-if (goes_on v (next_offset o v)) 0 (length a.events) (measure fuel i (next_offset o v))
      (pure (next_offset o v)) a (Post-measure fuel i (next_offset o v) a (omega arith))
      (omega arith)

pub Post-read_image : (b : Bool) (i : ℕ) (w : Io) → Post 0 (length w.events) (read_image b i w)
unfolding read_image
Post-read_image b i w =
    Post-then 0 (length w.events) _ _ (Post-measure (suc (length w.events)) i 0x40 w (omega arith))
      λ o a h. Post-then 0 (length a.events) _ _ (Post-fail_if (not b) Errno.nomem a) λ _ c k.
        Post-then 1 (length c.events) _ _ (read_once i 0 (nwords o * 2) c) λ vs e r. omega arith

length-dword_bytes : (vs : List ℕ) → length (dword_bytes vs) ≡ 4 * length vs
length-dword_bytes [] = refl
length-dword_bytes (v ∷ vs) =
    omega (arith, length-append (bytes_u32 v) (dword_bytes vs), length-dword_bytes vs)

measure-Bounded : (fuel i o : ℕ) (w : Io) → Gives (λ o' _. o' < u16_mod) (measure fuel i o w)
unfolding measure
measure-Bounded zero i o w = tt
measure-Bounded (suc fuel) i o w =
    Gives-next (λ _ _. Unit) (λ o' _. o' < u16_mod) (read i o 4 w) _ (Gives-any (read i o 4 w))
      λ vs a _.
        let v = get_or vs 0 0 in
        Gives-if (λ o' _. o' < u16_mod) (goes_on v (next_offset o v))
          (measure fuel i (next_offset o v)) (pure (next_offset o v)) a
          (λ _. measure-Bounded fuel i (next_offset o v) a) (λ _. omega arith)

-- The image has exactly the words that are counted, an even number and at most 2 ^ 16 of them.
pub Sized : ℕ × List ℕ → Io → Type 0
Sized (n, image) w = (length image ≡ n * 2) × ((n % 2 ≡ 0) × ((2 ≤ n) × (n ≤ u16_mod)))

-- Where the measuring and reading of the EEPROM of a slave succeeds, the image has exactly the
-- sii_nwords words that the memory is allocated for: an even number from 2 to 2^16, so that the
-- length that is asked for is one that ec_sii_read takes.
pub read_image-Sized : (b : Bool) (i : ℕ) (w : Io) → Gives Sized (read_image b i w)
unfolding read_image Sized Whole
read_image-Sized b i w =
    Gives-next (λ o' _. o' < u16_mod) Sized (measure (suc (length w.events)) i 0x40 w) _
      (measure-Bounded (suc (length w.events)) i 0x40 w)
      λ o a l.
        Gives-next (λ _ _. Unit) Sized (fail_if (not b) Errno.nomem a) _
          (Gives-any (fail_if (not b) Errno.nomem a))
          λ _ c _.
            Gives-next (Whole c.slave_count i (nwords o * 2)) Sized (read i 0 (nwords o * 2) c) _
              (read-Whole i 0 (nwords o * 2) c)
              λ vs e h. (
                omega (arith, length-dword_bytes vs, h.2),
                (omega arith, (omega arith, omega arith)),
              )
