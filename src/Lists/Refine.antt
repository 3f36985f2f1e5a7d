-- ===== src/Lists/Refine.antt =====
-- The doubly linked lists of include/ec_list.h as implementations of sequences: what their
-- operations mean for the sequence of the linked nodes, and what the two tests read off it.
use cherry_ecat.Prelude.{
  ℕ, zero, suc, ◌≡◌, ◌<◌, ◌+◌, ◌%◌, refl, List, [], ◌∷◌, ◌++◌, some, true, false, arith, ◌==◌,
  subst, length, u32_mod, ap, ==_iff, ◌↔◌, ◌∙◌, Bool-cases, inl, inr,
}
use cherry_ecat.Lists.{
  Links, add_head, add_tail, unlink, move_head, move_tail, is_empty, len, len_from,
}
use cherry_ecat.Lists.Ring.{Chain, Holds}
use cherry_ecat.Lists.Unlink.{add_head-Holds, add_tail-Holds, unlink-Holds}
use cherry_ecat.Master.{contains, remove}
use cherry_ecat.Master.Queue.{Distinct, contains-remove}

-- A call of one of the functions that change the list.
pub data Call : Type 0 where
  head tail out to_head to_tail : ℕ → Call

unfoldable pub step : ℕ → Links → Call → Links
unfolding add_head add_tail unlink move_head move_tail
step l h (Call.head n) = add_head h l n
step l h (Call.tail n) = add_tail h l n
step l h (Call.out n) = unlink h n
step l h (Call.to_head n) = move_head h l n
step l h (Call.to_tail n) = move_tail h l n

unfoldable pub run : ℕ → Links → List Call → Links
unfolding step
run l h [] = h
run l h (c ∷ cs) = run l (step l h c) cs

-- What a call does to the sequence.
abbrev pub step_spec : List ℕ → Call → List ℕ
step_spec xs (Call.head n) = n ∷ xs
step_spec xs (Call.tail n) = xs ++ n ∷ []
step_spec xs (Call.out n) = remove n xs
step_spec xs (Call.to_head n) = n ∷ remove n xs
step_spec xs (Call.to_tail n) = remove n xs ++ n ∷ []

abbrev pub run_spec : List ℕ → List Call → List ℕ
run_spec xs [] = xs
run_spec xs (c ∷ cs) = run_spec (step_spec xs c) cs

-- A node is inserted when it is not in the list, and removed or moved when it is.
abbrev pub Allowed : ℕ → List ℕ → Call → Type 0
Allowed l xs (Call.head n) = contains n (l ∷ xs) ≡ false
Allowed l xs (Call.tail n) = contains n (l ∷ xs) ≡ false
Allowed l xs (Call.out n) = contains n xs ≡ true
Allowed l xs (Call.to_head n) = contains n xs ≡ true
Allowed l xs (Call.to_tail n) = contains n xs ≡ true

abbrev pub AllAllowed : ℕ → List ℕ → List Call → Type 0
AllAllowed l xs [] = Unit {0}
AllAllowed l xs (c ∷ cs) = Allowed l xs c × AllAllowed l (step_spec xs c) cs

-- A node of a list stands somewhere in it, and `remove` takes it out there.
split :
    (n : ℕ) (xs : List ℕ)
    → contains n xs ≡ true
    → (ys : List ℕ) × (zs : List ℕ) × (xs ≡ ys ++ n ∷ zs) × (remove n xs ≡ ys ++ zs)
split n [] m = cc
split n (x ∷ xs) m = elim (Bool-cases (x == n)) [
  | inl e ↦ ([], xs, ap (λ (k : ℕ). k ∷ xs) ((==_iff x n).0 e), rw e)
  | inr e ↦
      let (ys, zs, p, q) = split n xs (ground arith) in
      (x ∷ ys, zs, ap (λ t. x ∷ t) p, rw e (ap (λ t. x ∷ t) q))
]

unlink-remove :
    (h : Links) (l n : ℕ) (xs : List ℕ)
    → contains n xs ≡ true
    → Holds h l xs
    → Holds (unlink h n) l (remove n xs)
unlink-remove h l n xs m v =
    let (ys, zs, p, q) = split n xs m in
    rw q (unlink-Holds h l n ys zs (subst (λ t. Holds h l t) p v))

-- Once it is removed, a node is not in the list any more.
removed :
    (l n : ℕ) (xs : List ℕ)
    → contains n xs ≡ true
    → Distinct (l ∷ xs)
    → contains n (l ∷ remove n xs) ≡ false
removed l n xs m d = ground (arith, contains-remove n n xs d.1, ==_iff l n)

step-Holds :
    (l : ℕ) (h : Links) (xs : List ℕ) (c : Call)
    → Allowed l xs c
    → Holds h l xs
    → Holds (step l h c) l (step_spec xs c)
unfolding step move_head move_tail
step-Holds l h xs (Call.head n) a v = add_head-Holds h l n xs a v
step-Holds l h xs (Call.tail n) a v = add_tail-Holds h l n xs a v
step-Holds l h xs (Call.out n) a v = unlink-remove h l n xs a v
step-Holds l h xs (Call.to_head n) a v =
    add_head-Holds (unlink h n) l n (remove n xs) (removed l n xs a v.1)
      (unlink-remove h l n xs a v)
step-Holds l h xs (Call.to_tail n) a v =
    add_tail-Holds (unlink h n) l n (remove n xs) (removed l n xs a v.1)
      (unlink-remove h l n xs a v)

-- The doubly linked lists refine sequences. Let the links be those of a list with head `l` that
-- holds the distinct nodes `xs` in this order: next and prev lead through them and back to the
-- head. After any sequence of calls of ec_dlist_add_head, ec_dlist_add_tail, ec_dlist_remove (or
-- ec_dlist_del_init), ec_dlist_move_head and ec_dlist_move_tail, each of which inserts a node that
-- is not in the list or removes or moves one that is, the links are those of a list that holds
-- the distinct nodes which the same calls leave in the sequence: inserted in front or at the end,
-- taken out, and all others in their order.
pub run-Holds :
    (l : ℕ) (h : Links) (xs : List ℕ) (cs : List Call)
    → AllAllowed l xs cs
    → Holds h l xs
    → Holds (run l h cs) l (run_spec xs cs)
unfolding run
run-Holds l h xs [] a v = v
run-Holds l h xs (c ∷ cs) a v =
    run-Holds l (step l h c) (step_spec xs c) cs a.1 (step-Holds l h xs c a.0 v)

len_from_lem :
    (fuel : ℕ) (h : Links) (l p k : ℕ) (xs : List ℕ)
    → length xs < fuel
    → contains l xs ≡ false
    → k < u32_mod
    → Chain h p xs l
    → len_from fuel h l p k ≡ some ((k + length xs) % u32_mod)
unfolding len_from
len_from_lem zero h l p k xs e o b c = absurd (omega arith)
len_from_lem (suc fuel) h l p k [] e o b c = ground arith
len_from_lem (suc fuel) h l p k (x ∷ xs) e o b c =
    ground (arith, len_from_lem fuel h l x ((k + 1) % u32_mod) xs)

-- On a list that holds the nodes `xs`, ec_dlist_len ends, in fewer rounds than any bound above
-- their number, and returns their number modulo 2 ^ 32, and ec_dlist_isempty holds exactly when
-- there are none.
pub len_lem :
    (fuel : ℕ) (h : Links) (l : ℕ) (xs : List ℕ)
    → length xs < fuel
    → Holds h l xs
    → (len fuel h l ≡ some (length xs % u32_mod)) × ((is_empty h l ≡ true) ↔ (xs ≡ []))
unfolding len is_empty
len_lem fuel h l [] e v =
    (len_from_lem fuel h l l 0 [] e refl (omega arith) v.0, ((λ q. refl), λ q. ground arith))
len_lem fuel h l (x ∷ xs) e v = (
  len_from_lem fuel h l l 0 (x ∷ xs) e (ground (arith, v.1.0)) (omega arith) v.0
      ∙ ap (λ (k : ℕ). some (k % u32_mod)) (omega arith),
  ((λ q. ground (arith, v.1.0)), λ q. cc q),
)
