-- ===== src/Lists.antt =====
-- include/ec_list.h: the doubly and singly linked lists. The links of all nodes are one memory: the
-- fields `next` and `prev` of the node at an address. A list is a node too, its head; NULL is 0. A
-- function assigns in the order of the source. A walk along the links takes fuel, and `none` means
-- that it ran out.
pub mod Ring
pub mod Unlink
pub mod Refine
pub mod Single
use cherry_ecat.Prelude.{
  ℕ, zero, suc, ◌+◌, ◌%◌, Option, none, some, Bool, if◌then◌else◌, ◌==◌, u32_mod,
}

-- struct ec_dlist_node, at each address.
pub record Links : Type 0 where
  pub next : ℕ → ℕ
  pub prev : ℕ → ℕ

abbrev pub update : (ℕ → ℕ) → ℕ → ℕ → ℕ → ℕ
update f p v q = if p == q then v else f q

-- p->next = v
abbrev pub set_next : Links → ℕ → ℕ → Links
set_next h p v = record { next = update h.next p v; prev = h.prev }

-- p->prev = v
abbrev pub set_prev : Links → ℕ → ℕ → Links
set_prev h p v = record { next = h.next; prev = update h.prev p v }

-- ec_dlist_init
unfoldable pub init : Links → ℕ → Links
init h l = let h1 = set_prev h l l in set_next h1 l l

-- ec_dlist_add_head
pub add_head : Links → ℕ → ℕ → Links
add_head h l n =
    let h1 = set_prev h (h.next l) n in
    let h2 = set_next h1 n (h1.next l) in let h3 = set_next h2 l n in set_prev h3 n l

-- ec_dlist_add_tail
pub add_tail : Links → ℕ → ℕ → Links
add_tail h l n =
    let h1 = set_next h (h.prev l) n in
    let h2 = set_prev h1 n (h1.prev l) in let h3 = set_prev h2 l n in set_next h3 n l

-- ec_dlist_remove, which is ec_dlist_del_init too
pub unlink : Links → ℕ → Links
unlink h n =
    let h1 = set_prev h (h.next n) (h.prev n) in
    let h2 = set_next h1 (h1.prev n) (h1.next n) in let h3 = set_prev h2 n n in set_next h3 n n

-- ec_dlist_move_head
pub move_head : Links → ℕ → ℕ → Links
unfolding unlink add_head
move_head h l n = add_head (unlink h n) l n

-- ec_dlist_move_tail
pub move_tail : Links → ℕ → ℕ → Links
unfolding unlink add_tail
move_tail h l n = add_tail (unlink h n) l n

-- ec_dlist_isempty
pub is_empty : Links → ℕ → Bool
is_empty h l = h.next l == l

-- The loop of ec_dlist_len.
pub len_from : ℕ → Links → ℕ → ℕ → ℕ → Option ℕ
len_from zero h l p len = none
len_from (suc fuel) h l p len =
    let rest = len_from fuel h l (h.next p) ((len + 1) % u32_mod) in
    if h.next p == l then some len else rest

-- ec_dlist_len
pub len : ℕ → Links → ℕ → Option ℕ
unfolding len_from
len fuel h l = len_from fuel h l l 0
