-- ===== src/Lists/Single.antt =====
-- include/ec_list.h: the singly linked lists, ec_slist_t. `next` is the field at each address; NULL
-- is 0, and a read or a write through it gives `none`. A walk takes fuel, and gives `none` without.
pub mod Facts
pub mod Changes
use cherry_ecat.Prelude.{
  ℕ, zero, suc, ◌+◌, ◌%◌, Option, none, some, Bool, if◌then◌else◌, ◌==◌, u32_mod,
}
use cherry_ecat.Lists.{update}

-- ec_slist_init
pub init : (ℕ → ℕ) → ℕ → ℕ → ℕ
init next l = update next l 0

-- ec_slist_add_head
pub add_head : (ℕ → ℕ) → ℕ → ℕ → ℕ → ℕ
add_head next l n = update (update next n (next l)) l n

-- ec_slist_tail, and the loop of ec_slist_add_tail
unfoldable pub tail : ℕ → (ℕ → ℕ) → ℕ → Option ℕ
tail zero next l = none
tail (suc fuel) next l = let rest = tail fuel next (next l) in if next l == 0 then some l else rest

-- ec_slist_add_tail
unfoldable pub add_tail : ℕ → (ℕ → ℕ) → ℕ → ℕ → Option (ℕ → ℕ)
unfolding tail
add_tail fuel next l n =
    if l == 0
    then none
    else elim (tail fuel next l) [ none ↦ none | some t ↦ some (update (update next t n) n 0) ]

-- The loop of ec_slist_insert. Each round goes on with the links that the round before left.
unfoldable pub insert_from : ℕ → (ℕ → ℕ) → ℕ → ℕ → ℕ → Option (ℕ → ℕ)
insert_from zero next l before n = none
insert_from (suc fuel) next l before n =
    let linked = if next l == before then update (update next l n) n before else next in
    let rest = insert_from fuel linked (linked l) before n in
    if next l == 0 then some next else rest

-- ec_slist_insert
unfoldable pub insert : ℕ → (ℕ → ℕ) → ℕ → ℕ → ℕ → Option (ℕ → ℕ)
unfolding insert_from add_tail
insert fuel next l before n =
    if before == 0 then add_tail fuel next before l else insert_from fuel next l before n

-- The loop of ec_slist_remove: the node before `n`, or the last one.
pub node_before : ℕ → (ℕ → ℕ) → ℕ → ℕ → Option ℕ
node_before zero next l n = none
node_before (suc fuel) next l n =
    let rest = node_before fuel next (next l) n in
    if next l == 0 then some l else if next l == n then some l else rest

-- ec_slist_remove
pub unlink : ℕ → (ℕ → ℕ) → ℕ → ℕ → Option (ℕ → ℕ)
unfolding node_before
unlink fuel next l n = elim (node_before fuel next l n) [
  | none ↦ none
  | some t ↦ some (if next t == 0 then next else update next t (next (next t)))
]

-- The loop of ec_slist_len, from its first node on.
pub len_from : ℕ → (ℕ → ℕ) → ℕ → ℕ → Option ℕ
len_from zero next p len = none
len_from (suc fuel) next p len =
    let rest = len_from fuel next (next p) ((len + 1) % u32_mod) in
    if p == 0 then some len else rest

-- ec_slist_len
pub len : ℕ → (ℕ → ℕ) → ℕ → Option ℕ
unfolding len_from
len fuel next l = len_from fuel next (next l) 0

-- ec_slist_contains
pub finds : ℕ → (ℕ → ℕ) → ℕ → ℕ → Option ℕ
finds zero next l n = none
finds (suc fuel) next l n =
    let rest = finds fuel next (next l) n in
    if next l == 0 then some 1 else if next l == n then some 0 else rest

-- ec_slist_isempty
pub is_empty : (ℕ → ℕ) → ℕ → Bool
is_empty next l = next l == 0
