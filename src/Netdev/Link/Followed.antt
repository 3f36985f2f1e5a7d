-- ===== src/Netdev/Link/Followed.antt =====
-- What the polling of src/ec_netdev.c makes of the link states of one device, and of several.
use cherry_ecat.Prelude.{
  ℕ, zero, suc, List, [], ◌∷◌, map, replicate, length, Bool, true, false, Bool-cases, none, inl,
  inr, ◌≡◌, refl, ap, ap₂, ◌∙◌, arith,
}
use cherry_ecat.Netdev.Link.{PhyStatus, agree, same, poll_link_state, linkpoll_timer, turns}

agree_eq : (a b : Bool) → agree a b ≡ true → a ≡ b
agree_eq true b h = ground arith
agree_eq false b h = ground arith

status_eq :
    (l l' : Bool) (s s' : ℕ) (d d' : Bool)
    → l ≡ l'
    → s ≡ s'
    → d ≡ d'
    → ◌≡◌ {A = PhyStatus}
        (record { link = l; duplex = d; speed = s })
        (record { link = l'; duplex = d'; speed = s' })
status_eq l l' s s' d d' e f g = rw (e, f, g) refl

same_eq : (a b : PhyStatus) → same a b ≡ true → a ≡ b
unfolding same
same_eq a b h =
    status_eq a.link b.link a.speed b.speed a.duplex b.duplex
      (agree_eq a.link b.link (ground arith)) (ground arith)
      (agree_eq a.duplex b.duplex (ground arith))

agree_refl : (a : Bool) → agree a a ≡ true
agree_refl true = refl
agree_refl false = refl

same_refl : (s : PhyStatus) → same s s ≡ true
unfolding same
same_refl s = rw (agree_refl s.link, agree_refl s.duplex) (ground arith)

-- The last of the statuses.
unfoldable pub latest : List PhyStatus → PhyStatus → PhyStatus
latest [] s = s
latest (t ∷ later) s = latest later t

poll_follows :
    (s c : PhyStatus) (l : Bool)
    → l ≡ c.link
    → ((poll_link_state s c l).0 ≡ s) × ((poll_link_state s c l).1.0 ≡ s.link)
unfolding poll_link_state
poll_follows s c l e = elim (Bool-cases (same c s)) [
  | inl g ↦ rw g (same_eq c s g, e ∙ ap (λ x. x.link) (same_eq c s g))
  | inr g ↦ rw g (refl, refl)
]

-- The first device of a turn, where the kept status agrees with its link state.
timer_first :
    (i : ℕ) (s c : PhyStatus) (statuses : List PhyStatus) (l : Bool) (links : List Bool)
    → l ≡ c.link
    → let r = linkpoll_timer i (s ∷ statuses) c (l ∷ links) in
      let rest = linkpoll_timer (suc i) statuses s links in
      (r.current ≡ rest.current) × (r.link_states ≡ s.link ∷ rest.link_states)
unfolding linkpoll_timer
timer_first i s c statuses l links e =
    let (a, b) = poll_follows s c l e in
    (
      ap (λ x. (linkpoll_timer (suc i) statuses x links).current) a,
      ap₂ (λ x y. y ∷ (linkpoll_timer (suc i) statuses x links).link_states) a b,
    )

turn_first :
    (s c : PhyStatus) (statuses : List PhyStatus) (l : Bool) (links : List Bool)
    (later : List (List PhyStatus))
    → l ≡ c.link
    → let rest = linkpoll_timer 1 statuses s links in
      turns ((s ∷ statuses) ∷ later) c (l ∷ links)
      ≡ turns later rest.current (s.link ∷ rest.link_states)
unfolding turns
turn_first s c statuses l links later e =
    let (a, b) = timer_first 0 s c statuses l links e in ap₂ (turns later) a b

-- On a single device, the kept status and the link state are those that the PHY reported last,
-- whatever it reported before, if they agree at the start.
pub turns-latest :
    (statuses : List PhyStatus) (s c : PhyStatus) (l : Bool)
    → l ≡ c.link
    → turns (map (λ (t : PhyStatus). t ∷ []) (s ∷ statuses)) c (l ∷ [])
      ≡ (latest statuses s, (latest statuses s).link ∷ [])
unfolding turns latest linkpoll_timer
turns-latest [] s c l e = turn_first s c [] l [] [] e
turns-latest (t ∷ statuses) s c l e =
    turn_first s c [] l [] (map (λ (t : PhyStatus). t ∷ []) (t ∷ statuses)) e
    ∙ turns-latest statuses t s s.link refl

poll_same : (s : PhyStatus) (l : Bool) → poll_link_state s s l ≡ (s, (l, none))
unfolding poll_link_state
poll_same s l = rw (same_refl s) refl

timer_same :
    (i : ℕ) (s : PhyStatus) (links : List Bool)
    → linkpoll_timer i (replicate (length links) s) s links
      ≡ record { current = s; link_states = links; calls = [] }
unfolding linkpoll_timer
timer_same i s [] = refl
timer_same i s (l ∷ links) = rw (poll_same s l, timer_same (suc i) s links) refl

turn_same :
    (s c : PhyStatus) (l : Bool) (links : List Bool) (later : List (List PhyStatus))
    → l ≡ c.link
    → turns (replicate (suc (length links)) s ∷ later) c (l ∷ links)
      ≡ turns later s (s.link ∷ links)
turn_same s c l links later e =
    turn_first s c (replicate (length links) s) l links later e
    ∙ ap (λ r. turns later r.current (s.link ∷ r.link_states)) (timer_same 1 s links)

-- While all PHYs report the same status, the link state of the first device follows it, and those of
-- all others stay what they were, however often the timer comes, if the kept status agrees with the
-- link state of the first device at the start.
pub turns_lem :
    (n : ℕ) (s c : PhyStatus) (l : Bool) (links : List Bool)
    → l ≡ c.link
    → turns (replicate (suc n) (replicate (suc (length links)) s)) c (l ∷ links)
      ≡ (s, s.link ∷ links)
unfolding turns
turns_lem zero s c l links e = turn_same s c l links [] e
turns_lem (suc n) s c l links e =
    turn_same s c l links (replicate (suc n) (replicate (suc (length links)) s)) e
    ∙ turns_lem n s s s.link links refl
