-- ===== src/Lists/Single/Facts.antt =====
-- What the singly linked lists of include/ec_list.h promise: the functions that change a list, and
-- the walks along it, as functions of the sequence of its nodes.
use cherry_ecat.Prelude.{
  Gets, ◌↔◌, refl, ℕ, zero, suc, ◌≡◌, ◌<◌, ◌+◌, ◌%◌, List, [], ◌∷◌, ◌++◌, some, true, false,
  if◌then◌else◌, arith, ◌==◌, length, u32_mod, ap, Bool-cases, inl, inr, ◌∙◌,
}
use cherry_ecat.Lists.{update}
use cherry_ecat.Lists.Single.{
  add_head, tail, add_tail, node_before, unlink, is_empty, len, len_from, finds,
}
use cherry_ecat.Lists.Ring.{last, contains-last}
use cherry_ecat.Master.{contains, remove}
use cherry_ecat.Master.Queue.{Distinct}

-- From the head `p` the links lead through the nodes `xs` to NULL.
abbrev pub Leads : (ℕ → ℕ) → ℕ → List ℕ → Type 0
Leads next p [] = next p ≡ 0
Leads next p (x ∷ xs) = (next p ≡ x) × ((x == 0) ≡ false) × Leads next x xs

pub Leads-frame :
    (f g : ℕ → ℕ) (p : ℕ) (xs : List ℕ)
    → ((a : ℕ) → contains a (p ∷ xs) ≡ true → g a ≡ f a)
    → Leads f p xs
    → Leads g p xs
Leads-frame f g p [] same s = ground (arith, same p)
Leads-frame f g p (x ∷ xs) same s =
    (ground (arith, same p), s.1, Leads-frame f g x xs (λ a m. same a (ground arith)) s.2)

tail_lem :
    (fuel : ℕ) (next : ℕ → ℕ) (p : ℕ) (xs : List ℕ)
    → length xs < fuel
    → Leads next p xs
    → tail fuel next p ≡ some (last p xs)
unfolding tail
tail_lem zero next p xs e s = absurd (omega arith)
tail_lem (suc fuel) next p [] e s = ground arith
tail_lem (suc fuel) next p (x ∷ xs) e s = ground (arith, tail_lem fuel next x xs)

Leads-tail :
    (f g : ℕ → ℕ) (p n : ℕ) (xs : List ℕ)
    → Distinct (p ∷ xs)
    → ((a : ℕ) → contains a (p ∷ xs) ≡ true → (a == last p xs) ≡ false → g a ≡ f a)
    → g (last p xs) ≡ n
    → (n == 0) ≡ false
    → g n ≡ 0
    → Leads f p xs
    → Leads g p (xs ++ n ∷ [])
Leads-tail f g p n [] d same e z en s = (e, z, en)
Leads-tail f g p n (x ∷ xs) d same e z en s = (
  ground (arith, same p, contains-last x xs),
  s.1,
  Leads-tail f g x n xs d.1 (λ a m b. same a (ground arith) b) e z en s.2,
)

pub add_tail-Leads :
    (fuel : ℕ) (next : ℕ → ℕ) (l n : ℕ) (xs : List ℕ)
    → length xs < fuel
    → (l == 0) ≡ false
    → (n == 0) ≡ false
    → contains n (l ∷ xs) ≡ false
    → Distinct (l ∷ xs)
    → Leads next l xs
    → Gets (λ g. Leads g l (xs ++ n ∷ [])) (add_tail fuel next l n)
unfolding add_tail
add_tail-Leads fuel next l n xs e zl zn new d s = rw zl (
    rw (tail_lem fuel next l xs e s) (
      Leads-tail next (update (update next (last l xs) n) n 0) l n xs d (λ a m b. ground arith)
        (ground (arith, contains-last l xs)) zn (ground arith) s))

-- Where ec_slist_remove stops: at the node before `n`, or at the last one.
abbrev pub before : ℕ → ℕ → List ℕ → ℕ
before p n [] = p
before p n (x ∷ xs) = if x == n then p else before x n xs

contains-before : (p n : ℕ) (xs : List ℕ) → contains (before p n xs) (p ∷ xs) ≡ true
contains-before p n [] = ground arith
contains-before p n (x ∷ xs) = ground (arith, contains-before x n xs)

node_before_lem :
    (fuel : ℕ) (next : ℕ → ℕ) (p n : ℕ) (xs : List ℕ)
    → length xs < fuel
    → Leads next p xs
    → node_before fuel next p n ≡ some (before p n xs)
unfolding node_before
node_before_lem zero next p n xs e s = absurd (omega arith)
node_before_lem (suc fuel) next p n [] e s = ground arith
node_before_lem (suc fuel) next p n (x ∷ xs) e s = ground (arith, node_before_lem fuel next x n xs)

Leads-restart :
    (f g : ℕ → ℕ) (p q : ℕ) (xs : List ℕ)
    → ((a : ℕ) → contains a xs ≡ true → g a ≡ f a)
    → g q ≡ f p
    → Leads f p xs
    → Leads g q xs
Leads-restart f g p q [] same e s = e ∙ s
Leads-restart f g p q (x ∷ xs) same e s = (e ∙ s.0, s.1, Leads-frame f g x xs same s.2)

Leads-unlink :
    (f g : ℕ → ℕ) (p n : ℕ) (xs : List ℕ)
    → Distinct (p ∷ xs)
    → ((a : ℕ) → contains a (p ∷ xs) ≡ true → (a == before p n xs) ≡ false → g a ≡ f a)
    → ((f (before p n xs) == 0) ≡ true → g (before p n xs) ≡ f (before p n xs))
    → ((f (before p n xs) == 0) ≡ false → g (before p n xs) ≡ f (f (before p n xs)))
    → Leads f p xs
    → Leads g p (remove n xs)
Leads-unlink f g p n [] d same end inner s = ground (arith, end)
Leads-unlink f g p n (x ∷ xs) d same end inner s = elim (Bool-cases (x == n)) [
  | inl e ↦
      let gp : g p ≡ f x = ground (arith, inner) in
      let agree : (a : ℕ) → contains a xs ≡ true → g a ≡ f a = λ a m. ground (arith, same a) in
      rw e (Leads-restart f g x p xs agree gp s.2)
  | inr e ↦ rw e (
    ground (arith, same p, contains-before x n xs),
    s.1,
    Leads-unlink f g x n xs d.1 (λ a m b. ground (arith, same a)) (λ z. ground (arith, end))
        (λ z. ground (arith, inner)) s.2,
  )
]

pub unlink-Leads :
    (fuel : ℕ) (next : ℕ → ℕ) (p n : ℕ) (xs : List ℕ)
    → length xs < fuel
    → Distinct (p ∷ xs)
    → Leads next p xs
    → Gets (λ g. Leads g p (remove n xs)) (unlink fuel next p n)
unfolding unlink
unlink-Leads fuel next p n xs e d s =
    let t = before p n xs in
    rw (node_before_lem fuel next p n xs e s, Gets)
      (Leads-unlink next (if next t == 0 then next else update next t (next (next t))) p n xs d
        (λ a m b. ground arith) (λ z. ground arith) (λ z. ground arith) s)

pub add_head-Leads :
    (next : ℕ → ℕ) (l n : ℕ) (xs : List ℕ)
    → (n == 0) ≡ false
    → contains n (l ∷ xs) ≡ false
    → Distinct (l ∷ xs)
    → Leads next l xs
    → Leads (add_head next l n) l (n ∷ xs)
unfolding add_head
add_head-Leads next l n xs zn new d s = (
  ground arith,
  zn,
  Leads-restart next (add_head next l n) l n xs (λ a m. ground (arith, d.0)) (ground arith) s,
)

len_from_lem :
    (fuel : ℕ) (next : ℕ → ℕ) (p k : ℕ) (xs : List ℕ)
    → length xs < fuel
    → k < u32_mod
    → Leads next p xs
    → len_from fuel next (next p) k ≡ some ((k + length xs) % u32_mod)
unfolding len_from
len_from_lem zero next p k xs e b s = absurd (omega arith)
len_from_lem (suc fuel) next p k [] e b s = ground arith
len_from_lem (suc fuel) next p k (x ∷ xs) e b s = rw s.0 (
    rw s.1 (
      len_from_lem fuel next x ((k + 1) % u32_mod) xs (omega arith) (omega arith) s.2
      ∙ ap (λ (m : ℕ). some m) (omega arith)))

finds_lem :
    (fuel : ℕ) (next : ℕ → ℕ) (p n : ℕ) (xs : List ℕ)
    → length xs < fuel
    → Leads next p xs
    → finds fuel next p n ≡ some (if contains n xs then 0 else 1)
unfolding finds
finds_lem zero next p n xs e s = absurd (omega arith)
finds_lem (suc fuel) next p n [] e s = ground arith
finds_lem (suc fuel) next p n (x ∷ xs) e s = ground (arith, finds_lem fuel next x n xs)

is_empty_lem :
    (next : ℕ → ℕ) (l : ℕ) (xs : List ℕ) → Leads next l xs → (is_empty next l ≡ true) ↔ (xs ≡ [])
unfolding is_empty
is_empty_lem next l [] s = ((λ q. refl), λ q. ground (arith, s))
is_empty_lem next l (x ∷ xs) s = ((λ q. ground (arith, s)), λ q. cc q)

-- Where the links lead from the head `l` through the nodes `xs` to NULL, and the bound on rounds
-- exceeds their number, ec_slist_len ends with the number of nodes modulo 2 ^ 32,
-- ec_slist_tail with the last node (the head, if there is none), ec_slist_isempty holds exactly when
-- there is no node, and ec_slist_contains ends with 0 for a node that is linked and with 1 for any
-- other.
pub reads_lem :
    (fuel : ℕ) (next : ℕ → ℕ) (l n : ℕ) (xs : List ℕ)
    → length xs < fuel
    → Leads next l xs
    → (len fuel next l ≡ some (length xs % u32_mod))
      × (tail fuel next l ≡ some (last l xs))
      × ((is_empty next l ≡ true) ↔ (xs ≡ []))
      × (finds fuel next l n ≡ some (if contains n xs then 0 else 1))
unfolding len
reads_lem fuel next l n xs e s = (
  len_from_lem fuel next l 0 xs e (omega arith) s
      ∙ ap (λ (k : ℕ). some (k % u32_mod)) (omega arith),
  tail_lem fuel next l xs e s,
  is_empty_lem next l xs s,
  finds_lem fuel next l n xs e s,
)
