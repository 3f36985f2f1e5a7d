-- ===== src/Lists/Ring.antt =====
-- What the links of a doubly linked list of include/ec_list.h look like: a ring through the head
-- and the nodes, walked in either direction, and how a change of single links changes a ring.
use cherry_ecat.Prelude.{ℕ, ◌≡◌, refl, ◌||◌, List, [], ◌∷◌, ◌++◌, true, false, arith, ◌==◌}
use cherry_ecat.Lists.{Links}
use cherry_ecat.Master.{contains}
use cherry_ecat.Master.Queue.{Distinct}

-- From `p` the links lead through the nodes `xs` to `q`, and back.
abbrev pub Chain : Links → ℕ → List ℕ → ℕ → Type 0
Chain h p [] q = (h.next p ≡ q) × (h.prev q ≡ p)
Chain h p (x ∷ xs) q = (h.next p ≡ x) × (h.prev x ≡ p) × Chain h x xs q

-- The list with head `l` links the nodes `xs`, in this order.
abbrev pub Holds : Links → ℕ → List ℕ → Type 0
Holds h l xs = Chain h l xs l × Distinct (l ∷ xs)

-- The last node of `p ∷ xs`, and the first one of `xs ++ q ∷ []`.
abbrev pub last : ℕ → List ℕ → ℕ
last p [] = p
last p (x ∷ xs) = last x xs

abbrev pub first : List ℕ → ℕ → ℕ
first [] q = q
first (x ∷ xs) q = x

pub contains-last : (p : ℕ) (xs : List ℕ) → contains (last p xs) (p ∷ xs) ≡ true
contains-last p [] = ground arith
contains-last p (x ∷ xs) = ground (arith, contains-last x xs)

pub Chain-last : (h : Links) (p q : ℕ) (xs : List ℕ) → Chain h p xs q → h.prev q ≡ last p xs
Chain-last h p q [] c = c.1
Chain-last h p q (x ∷ xs) c = Chain-last h x q xs c.2

pub Chain-first : (h : Links) (p q : ℕ) (xs : List ℕ) → Chain h p xs q → h.next p ≡ first xs q
Chain-first h p q [] c = c.0
Chain-first h p q (x ∷ xs) c = c.0

pub Chain-append :
    (h : Links) (p q n : ℕ) (xs ys : List ℕ)
    → Chain h p xs n
    → Chain h n ys q
    → Chain h p (xs ++ n ∷ ys) q
Chain-append h p q n [] ys c d = (c.0, c.1, d)
Chain-append h p q n (x ∷ xs) ys c d = (c.0, c.1, Chain-append h x q n xs ys c.2 d)

pub Chain-split :
    (h : Links) (p q n : ℕ) (xs ys : List ℕ)
    → Chain h p (xs ++ n ∷ ys) q
    → Chain h p xs n × Chain h n ys q
Chain-split h p q n [] ys c = ((c.0, c.1), c.2)
Chain-split h p q n (x ∷ xs) ys c = let (a, b) = Chain-split h x q n xs ys c.2 in ((c.0, c.1, a), b)

-- The same links lead to another end if the two links at the end do.
pub Chain-retarget :
    (h g : Links) (p q r : ℕ) (xs : List ℕ)
    → Distinct (p ∷ xs)
    → ((a : ℕ) → contains a (p ∷ xs) ≡ true → (a == last p xs) ≡ false → g.next a ≡ h.next a)
    → ((a : ℕ) → contains a xs ≡ true → g.prev a ≡ h.prev a)
    → g.next (last p xs) ≡ r
    → g.prev r ≡ last p xs
    → Chain h p xs q
    → Chain g p xs r
Chain-retarget h g p q r [] d sn sp n v c = (n, v)
Chain-retarget h g p q r (x ∷ xs) d sn sp n v c = (
  ground (arith, sn p, contains-last x xs),
  ground (arith, sp x),
  Chain-retarget h g x q r xs d.1 (λ a m e. sn a (ground arith) e) (λ a m. sp a (ground arith)) n v
      c.2,
)

-- Links that are not changed lead where they led.
pub Chain-frame :
    (h g : Links) (p q : ℕ) (xs : List ℕ)
    → ((a : ℕ) → contains a (p ∷ xs) ≡ true → g.next a ≡ h.next a)
    → ((a : ℕ) → contains a (xs ++ q ∷ []) ≡ true → g.prev a ≡ h.prev a)
    → Chain h p xs q
    → Chain g p xs q
Chain-frame h g p q [] sn sp c = (ground (arith, sn p), ground (arith, sp q))
Chain-frame h g p q (x ∷ xs) sn sp c = (
  ground (arith, sn p),
  ground (arith, sp x),
  Chain-frame h g x q xs (λ a m. sn a (ground arith)) (λ a m. sp a (ground arith)) c.2,
)

-- The same links lead from another start if the two links at the start do.
pub Chain-restart :
    (h g : Links) (p q r : ℕ) (xs : List ℕ)
    → ((a : ℕ) → contains a xs ≡ true → g.next a ≡ h.next a)
    → ((a : ℕ) → contains a (xs ++ q ∷ []) ≡ true → (a == first xs q) ≡ false → g.prev a ≡ h.prev a)
    → g.next r ≡ first xs q
    → g.prev (first xs q) ≡ r
    → Distinct (xs ++ q ∷ [])
    → Chain h p xs q
    → Chain g r xs q
Chain-restart h g p q r [] sn sp n v d c = (n, v)
Chain-restart h g p q r (x ∷ xs) sn sp n v d c =
    (n, v, Chain-frame h g x q xs sn (λ a m. sp a (ground arith) (ground (arith, d.0))) c.2)

-- What occurs in a list in two parts, and what it means for it to have no node twice.
pub contains_parts :
    (a : ℕ) (xs ys : List ℕ) → contains a (xs ++ ys) ≡ (contains a xs || contains a ys)
contains_parts a [] ys = refl
contains_parts a (x ∷ xs) ys = ground (arith, contains_parts a xs ys)

pub Distinct-parts :
    (xs ys : List ℕ)
    → Distinct (xs ++ ys)
    → Distinct xs × Distinct ys × ((a : ℕ) → contains a xs ≡ true → contains a ys ≡ false)
Distinct-parts [] ys d = (tt, d, λ a m. cc)
Distinct-parts (x ∷ xs) ys d =
    let (dx, dy, apart) = Distinct-parts xs ys d.1 in
    (
      (ground (arith, contains_parts x xs ys), dx),
      dy,
      λ a m. ground (arith, contains_parts x xs ys, apart a),
    )

pub Distinct-whole :
    (xs ys : List ℕ)
    → Distinct xs
    → Distinct ys
    → ((a : ℕ) → contains a xs ≡ true → contains a ys ≡ false)
    → Distinct (xs ++ ys)
Distinct-whole [] ys dx dy apart = dy
Distinct-whole (x ∷ xs) ys dx dy apart = (
  ground (arith, contains_parts x xs ys, apart x),
  Distinct-whole xs ys dx.1 dy (λ a m. apart a (ground arith)),
)

pub contains-first : (xs : List ℕ) (q : ℕ) → contains (first xs q) (xs ++ q ∷ []) ≡ true
contains-first [] q = ground arith
contains-first (x ∷ xs) q = ground arith
