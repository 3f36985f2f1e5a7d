-- ===== src/Lists/Single/Changes.antt =====
-- The functions of include/ec_list.h that change a singly linked list, ec_slist_insert above all.
use cherry_ecat.Prelude.{
  Gets, refl, subst, ℕ, zero, suc, ◌≡◌, ◌<◌, List, [], ◌∷◌, ◌++◌, some, true, false, if◌then◌else◌,
  arith, ◌==◌, length, Bool-cases, inl, inr, ap, ◌∙◌,
}
use cherry_ecat.Lists.{update}
use cherry_ecat.Lists.Single.{add_head, add_tail, unlink, insert_from, insert}
use cherry_ecat.Lists.Single.Facts.{
  Leads, Leads-frame, add_head-Leads, add_tail-Leads, unlink-Leads,
}
use cherry_ecat.Master.{contains, remove}
use cherry_ecat.Master.Queue.{Distinct}

-- The sequence with `n` in front of `k`, or as it is without `k`.
unfoldable pub put_before : ℕ → ℕ → List ℕ → List ℕ
put_before k n [] = []
put_before k n (x ∷ xs) = if x == k then n ∷ x ∷ xs else x ∷ put_before k n xs

-- The links stay what they were except at `n` and at the nodes of the list.
abbrev Keeps : (ℕ → ℕ) → ℕ → List ℕ → (ℕ → ℕ) → Type 0
Keeps f n xs g = (a : ℕ) → contains a xs ≡ false → (a == n) ≡ false → g a ≡ f a

insert_end :
    (fuel : ℕ) (next : ℕ → ℕ) (p k n : ℕ)
    → next p ≡ 0
    → insert_from (suc fuel) next p k n ≡ some next
unfolding insert_from
insert_end fuel next p k n e = let h : (next p == 0) ≡ true = ground arith in rw h refl

insert_on :
    (fuel : ℕ) (next : ℕ → ℕ) (p k n x : ℕ)
    → next p ≡ x
    → (x == 0) ≡ false
    → (x == k) ≡ false
    → insert_from (suc fuel) next p k n ≡ insert_from fuel next x k n
unfolding insert_from
insert_on fuel next p k n x e z d = rw e (rw (z, d, e) refl)

insert_here :
    (fuel : ℕ) (next : ℕ → ℕ) (p k n x : ℕ)
    → next p ≡ k
    → (k == 0) ≡ false
    → update (update next p n) n k p ≡ x
    → insert_from (suc fuel) next p k n ≡ insert_from fuel (update (update next p n) n k) x k n
unfolding insert_from
insert_here fuel next p k n x e z t =
    let h : (k == k) ≡ true = ground arith in
    rw e (rw (z, h) (ap (λ (y : ℕ). insert_from fuel (update (update next p n) n k) y k n) t))

insert_absent :
    (fuel : ℕ) (next : ℕ → ℕ) (p k n : ℕ) (xs : List ℕ)
    → length xs < fuel
    → contains k xs ≡ false
    → Leads next p xs
    → insert_from fuel next p k n ≡ some next
insert_absent zero next p k n xs e a s = absurd (omega arith)
insert_absent (suc fuel) next p k n [] e a s = insert_end fuel next p k n s
insert_absent (suc fuel) next p k n (x ∷ xs) e a s =
    insert_on fuel next p k n x s.0 s.1 (ground arith)
    ∙ insert_absent fuel next x k n xs (omega arith) (ground arith) s.2

-- From `n` on, where it has been linked in front of `x`.
insert_linked :
    (fuel : ℕ) (f : ℕ → ℕ) (n x : ℕ) (xs : List ℕ)
    → suc (length xs) < fuel
    → f n ≡ x
    → (x == 0) ≡ false
    → (x == n) ≡ false
    → contains x xs ≡ false
    → contains n xs ≡ false
    → Leads f x xs
    → (g : ℕ → ℕ) × ((insert_from fuel f n x n ≡ some g) × ((a : ℕ) → g a ≡ f a))
insert_linked zero f n x xs e fn z xn a b s = absurd (omega arith)
insert_linked (suc fuel) f n x xs e fn z xn a b s =
    let f' : ℕ → ℕ = update (update f n n) n x in
    let same : (c : ℕ) → f' c ≡ f c = λ c. ground arith in
    (
      f',
      (
        insert_here fuel f n x n x fn z (ground arith)
            ∙ insert_absent fuel f' x x n xs (omega arith) a
                (Leads-frame f f' x xs (λ c m. same c) s),
        same,
      ),
    )

-- What the loop leaves.
abbrev Inserted : (ℕ → ℕ) → ℕ → ℕ → ℕ → List ℕ → (ℕ → ℕ) → Type 0
Inserted f p k n xs g = Leads g p (put_before k n xs) × Keeps f n (p ∷ xs) g

-- In front of the first node.
insert_first :
    (fuel : ℕ) (f : ℕ → ℕ) (p n x : ℕ) (xs : List ℕ)
    → suc (length xs) < fuel
    → (n == 0) ≡ false
    → contains n (p ∷ x ∷ xs) ≡ false
    → Distinct (p ∷ x ∷ xs)
    → Leads f p (x ∷ xs)
    → (g : ℕ → ℕ) × ((insert_from (suc fuel) f p x n ≡ some g)
        × (Leads g p (n ∷ x ∷ xs) × Keeps f n (p ∷ x ∷ xs) g))
insert_first fuel f p n x xs e z new d s =
    let f1 : ℕ → ℕ = update (update f p n) n x in
    let framed = Leads-frame f f1 x xs (λ a m. ground (arith, d.0)) s.2 in
    let (g, (t, same)) =
      insert_linked fuel f1 n x xs e (ground arith) s.1 (ground arith) (ground (arith, d.1))
        (ground arith) framed in
    (
      g,
      (
        insert_here fuel f p x n n s.0 s.1 (ground arith) ∙ t,
        (
          (
            same p ∙ ground arith,
            z,
            (same n ∙ ground arith, s.1, Leads-frame f1 g x xs (λ a m. same a) framed),
          ),
          λ a m b. same a ∙ ground arith,
        ),
      ),
    )

insert-Inserted :
    (fuel : ℕ) (f : ℕ → ℕ) (p k n : ℕ) (xs : List ℕ)
    → suc (length xs) < fuel
    → (n == 0) ≡ false
    → contains n (p ∷ xs) ≡ false
    → Distinct (p ∷ xs)
    → Leads f p xs
    → (g : ℕ → ℕ) × ((insert_from fuel f p k n ≡ some g) × Inserted f p k n xs g)
unfolding put_before
insert-Inserted zero f p k n xs e z new d s = absurd (omega arith)
insert-Inserted (suc fuel) f p k n [] e z new d s =
    (f, (insert_end fuel f p k n s, (s, λ a m b. refl)))
insert-Inserted (suc fuel) f p k n (x ∷ xs) e z new d s = elim (Bool-cases (x == k)) [
  | inl h ↦
      let xk : x ≡ k = ground arith in
      rw h (
        subst
          (λ (j : ℕ).
            (g : ℕ → ℕ) × ((insert_from (suc fuel) f p j n ≡ some g)
              × (Leads g p (n ∷ x ∷ xs) × Keeps f n (p ∷ x ∷ xs) g)))
          xk (insert_first fuel f p n x xs (omega arith) z new d s))
  | inr h ↦
      let (g, (t, (l, keep))) =
        insert-Inserted fuel f x k n xs (omega arith) z (ground arith) d.1 s.2 in
      (
        g,
        (
          insert_on fuel f p k n x s.0 s.1 h ∙ t,
          (
            rw h (keep p (ground arith) (ground arith) ∙ s.0, s.1, l),
            λ a m b. keep a (ground arith) b,
          ),
        ),
      )
]

-- Where it is given a node to insert in front of, ec_slist_insert ends and puts `n` there.
insert-Leads :
    (fuel : ℕ) (next : ℕ → ℕ) (l k n : ℕ) (xs : List ℕ)
    → suc (length xs) < fuel
    → (k == 0) ≡ false
    → (n == 0) ≡ false
    → contains n (l ∷ xs) ≡ false
    → Distinct (l ∷ xs)
    → Leads next l xs
    → Gets (λ g. Leads g l (put_before k n xs)) (insert fuel next l k n)
unfolding insert
insert-Leads fuel next l k n xs e zk zn new d s =
    let (g, (t, (leads, _))) = insert-Inserted fuel next l k n xs e zn new d s in rw (zk, t) leads

-- Let the links lead from the head `l`, which is not NULL, through the distinct nodes `xs` to NULL,
-- let the bound on rounds exceed their number by more than one, and let `n` be neither NULL nor the
-- head nor in the list. Then ec_slist_add_head makes `n` the first node, and ec_slist_add_tail ends
-- and makes it the last one. ec_slist_insert in front of a node `m` that is not NULL ends, puts `n` in
-- front of `m` if that is linked, and leaves the list as it is otherwise. ec_slist_remove ends for
-- every node `k`, takes it out if it is linked, and leaves the other nodes in their order.
pub changes-Leads :
    (fuel : ℕ) (next : ℕ → ℕ) (l n k m : ℕ) (xs : List ℕ)
    → suc (length xs) < fuel
    → (l == 0) ≡ false
    → (n == 0) ≡ false
    → (m == 0) ≡ false
    → contains n (l ∷ xs) ≡ false
    → Distinct (l ∷ xs)
    → Leads next l xs
    → Leads (add_head next l n) l (n ∷ xs)
      × Gets (λ g. Leads g l (xs ++ n ∷ [])) (add_tail fuel next l n)
      × Gets (λ g. Leads g l (put_before m n xs)) (insert fuel next l m n)
      × Gets (λ g. Leads g l (remove k xs)) (unlink fuel next l k)
changes-Leads fuel next l n k m xs e zl zn zm new d s = (
  add_head-Leads next l n xs zn new d s,
  add_tail-Leads fuel next l n xs (omega arith) zl zn new d s,
  insert-Leads fuel next l m n xs e zm zn new d s,
  unlink-Leads fuel next l k xs (omega arith) d s,
)
