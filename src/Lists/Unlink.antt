-- ===== src/Lists/Unlink.antt =====
-- What ec_dlist_add_head, ec_dlist_add_tail and ec_dlist_remove of include/ec_list.h make of a ring.
use cherry_ecat.Prelude.{ℕ, ◌≡◌, refl, List, [], ◌∷◌, ◌++◌, false, arith, ◌==◌, append-nil}
use cherry_ecat.Lists.{Links, init, add_head, add_tail, unlink}
use cherry_ecat.Lists.Ring.{
  Chain, Holds, last, first, contains-last, contains-first, Chain-last, Chain-first, Chain-append,
  Chain-split, Chain-retarget, Chain-frame, Chain-restart, contains_parts, Distinct-parts,
  Distinct-whole,
}
use cherry_ecat.Master.{contains}
use cherry_ecat.Master.Queue.{Distinct, Distinct-append}

pub init-Holds : (h : Links) (l : ℕ) → Holds (init h l) l []
unfolding init
init-Holds h l = ground arith

module _ (h : Links) (l n : ℕ) (xs : List ℕ) (new : contains n (l ∷ xs) ≡ false)
    (v : Holds h l xs) where
  pub add_tail-Holds : Holds (add_tail h l n) l (xs ++ n ∷ [])
  unfolding add_tail
  add_tail-Holds =
      let e = Chain-last h l l xs v.0 in
      let z = contains-last l xs in
      (
        Chain-append (add_tail h l n) l l n xs []
            (Chain-retarget h (add_tail h l n) l l n xs v.1 (λ a m s. ground (arith, e))
              (λ a m. ground arith) (ground (arith, e, z)) (ground (arith, e)) v.0)
            (ground arith, ground arith),
        Distinct-append n (l ∷ xs) new v.1,
      )

  pub add_head-Holds : Holds (add_head h l n) l (n ∷ xs)
  unfolding add_head
  add_head-Holds =
      let e = Chain-first h l l xs v.0 in
      let z = contains-first xs l in
      (
        (
          ground arith,
          ground arith,
          Chain-restart h (add_head h l n) l l n xs (λ a m. ground arith)
              (λ a m s. ground (arith, e, contains_parts a xs (l ∷ []))) (ground (arith, e))
              (ground (arith, e, z, contains_parts (first xs l) xs (l ∷ [])))
              (Distinct-append l xs v.1.0 v.1.1) v.0,
        ),
        (ground arith, (ground arith, v.1.1)),
      )

-- Behind `n` the links that the removal leaves alone lead on to the head.
unlink_behind :
    (h : Links) (l n y z : ℕ) (ys : List ℕ)
    → Distinct (y ∷ ys ++ l ∷ [])
    → contains n (y ∷ ys ++ l ∷ []) ≡ false
    → contains z (y ∷ ys) ≡ false
    → h.next n ≡ y
    → h.prev n ≡ z
    → Chain h y ys l
    → Chain (unlink h n) y ys l
unfolding unlink
unlink_behind h l n y z ys d out apart e f c =
    Chain-frame h (unlink h n) y l ys (λ a m. ground (arith, e, f, contains_parts n ys (l ∷ [])))
      (λ a m. ground (arith, e, f)) c

-- Before it, the last node is linked to what stood behind `n`.
unlink_before :
    (h : Links) (l n y z : ℕ) (xs : List ℕ)
    → Distinct (l ∷ xs)
    → contains n (l ∷ xs) ≡ false
    → contains y xs ≡ false
    → (n == y) ≡ false
    → z ≡ last l xs
    → h.next n ≡ y
    → h.prev n ≡ z
    → Chain h l xs n
    → Chain (unlink h n) l xs y
unfolding unlink
unlink_before h l n y z xs d out apart ne last_z e f c =
    Chain-retarget h (unlink h n) l n y xs d (λ a m s. ground (arith, e, f, last_z))
      (λ a m. ground (arith, e, f)) (ground (arith, e, f, last_z, contains-last l xs))
      (ground (arith, e, f, last_z)) c

pub unlink-Holds :
    (h : Links) (l n : ℕ) (xs ys : List ℕ)
    → Holds h l (xs ++ n ∷ ys)
    → Holds (unlink h n) l (xs ++ ys)
unlink-Holds h l n xs [] (c, d) =
    let (c1, c2) = Chain-split h l l n xs [] c in
    let (dx, dy, apart) = Distinct-parts (l ∷ xs) (n ∷ []) d in
    rw append-nil (
      unlink_before h l n l (last l xs) xs dx (ground (arith, apart n)) dx.0
          (ground (arith, apart l)) refl c2.0 (Chain-last h l n xs c1) c1,
      dx,
    )
unlink-Holds h l n xs (y ∷ ys) (c, d) =
    let (c1, c2) = Chain-split h l l n xs (y ∷ ys) c in
    let (dx, dy, apart) = Distinct-parts (l ∷ xs) (n ∷ y ∷ ys) d in
    let z = last l xs in
    let e = Chain-last h l n xs c1 in
    let l_out : contains l (y ∷ ys) ≡ false = ground (arith, apart l) in
    (
      Chain-append (unlink h n) l l y xs ys
          (unlink_before h l n y z xs dx (ground (arith, apart n)) (ground (arith, apart y))
            (ground (arith, dy.0)) refl c2.0 e c1)
          (unlink_behind h l n y z ys (Distinct-append l (y ∷ ys) l_out dy.1)
            (ground (arith, dy.0, contains_parts n (y ∷ ys) (l ∷ []), apart l))
            (ground (arith, apart z, contains-last l xs)) c2.0 e c2.2),
      Distinct-whole (l ∷ xs) (y ∷ ys) dx dy.1 (λ a m. ground (arith, apart a)),
    )

-- The removed node is a list with nothing in it.
pub unlink_self : (h : Links) (n : ℕ) → Holds (unlink h n) n []
unfolding unlink
unlink_self h n = ground arith
