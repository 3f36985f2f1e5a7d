-- ===== src/Master/Progress/Round.antt =====
-- One frame of ec_master_send_datagrams, seen from the queue: which datagrams it takes, and what
-- it does to their states.
use cherry_ecat.Prelude.{
  ℕ, ◌+◌, ◌≤◌, ◌<◌, ◌≡◌, ◌⊎◌, refl, List, [], ◌∷◌, ◌++◌, Bool, true, false, if◌then◌else◌,
  Bool-cases, arith, inl, inr, ap, length, ◌==◌, ◌||◌, ==_iff,
}
use cherry_ecat.Datagram.{Datagram, DatagramState}
use cherry_ecat.Master.{contains, store}
use cherry_ecat.Master.Frame.{Fill, eligible, add_datagram, fill_frame}
use cherry_ecat.Master.Send.{mark_sent, is_empty}

-- How many pointers of a list pass a test.
abbrev pub count : (ℕ → Bool) → List ℕ → ℕ
count e [] = 0
count e (q ∷ qs) = (if e q then 1 else 0) + count e qs

pub count-le-length : (e : ℕ → Bool) (qs : List ℕ) → count e qs ≤ length qs
count-le-length e [] = omega arith
count-le-length e (q ∷ qs) = ground (arith, count-le-length e qs)

pub count_mono :
    (e e' : ℕ → Bool) (qs : List ℕ)
    → ((q : ℕ) → e' q ≡ true → e q ≡ true)
    → count e' qs ≤ count e qs
count_mono e e' [] h = omega arith
count_mono e e' (q ∷ qs) h = ground (arith, h q, count_mono e e' qs h)

pub count_falls :
    (e e' : ℕ → Bool) (p : ℕ) (qs : List ℕ)
    → ((q : ℕ) → e' q ≡ true → e q ≡ true)
    → contains p qs ≡ true
    → e p ≡ true
    → e' p ≡ false
    → count e' qs < count e qs
count_falls e e' p [] h c t f = cc
count_falls e e' p (q ∷ qs) h c t f = elim (Bool-cases (q == p)) [
  | inl s ↦ here ((==_iff q p).0 s)
  | inr s ↦ ground (arith, h q, count_falls e e' p qs h (rw s at c) t f)
]
  where
    here : q ≡ p → count e' (q ∷ qs) < count e (q ∷ qs)
    here s = ground (arith, count_mono e e' qs h)

-- The parts of a datagram that filling a frame leaves alone.
abbrev pub Same : Datagram → Datagram → Type 0
Same d e =
    (d.state ≡ e.state)
    × (d.netdev_idx ≡ e.netdev_idx)
    × (d.data_size ≡ e.data_size)
    × (d.waiter ≡ e.waiter)

pub add_datagram-Same : (f : Fill) (p q : ℕ) → Same ((add_datagram f p).cells q) (f.cells q)
unfolding add_datagram
add_datagram-Same f p q = ground arith

pub fill_frame-Same :
    (n : ℕ) (ps : List ℕ) (f : Fill) (q : ℕ) → Same ((fill_frame n ps f).cells q) (f.cells q)
unfolding fill_frame
fill_frame-Same n [] f q = (refl, refl, refl, refl)
fill_frame-Same n (p ∷ ps) f q = ground (
  arith,
  fill_frame-Same n ps f q,
  fill_frame-Same n ps (add_datagram f p) q,
  add_datagram-Same f p q,
)

pub mark_sent_state :
    (t : ℕ) (ps : List ℕ) (cells : ℕ → Datagram) (q : ℕ)
    → (mark_sent t ps cells q).state
      ≡ (if contains q ps then DatagramState.sent else (cells q).state)
unfolding mark_sent
mark_sent_state t [] cells q = refl
mark_sent_state t (p ∷ ps) cells q = ground (
  arith,
  mark_sent_state t ps
      (store cells p (record (cells p) { state = DatagramState.sent; jiffies_sent = t })) q,
)

pub mark_sent_rest :
    (t : ℕ) (ps : List ℕ) (cells : ℕ → Datagram) (q : ℕ)
    → ((mark_sent t ps cells q).netdev_idx ≡ (cells q).netdev_idx)
      × ((mark_sent t ps cells q).data_size ≡ (cells q).data_size)
unfolding mark_sent
mark_sent_rest t [] cells q = (refl, refl)
mark_sent_rest t (p ∷ ps) cells q = ground (
  arith,
  mark_sent_rest t ps
      (store cells p (record (cells p) { state = DatagramState.sent; jiffies_sent = t })) q,
)

contains-append : (q p : ℕ) (xs : List ℕ) → contains q (xs ++ p ∷ []) ≡ (contains q xs || p == q)
contains-append q p [] = ground arith
contains-append q p (x ∷ xs) = ground (arith, contains-append q p xs)

-- A frame's list only grows.
pub sent_keeps :
    (n : ℕ) (ps : List ℕ) (f : Fill) (q : ℕ)
    → contains q f.sent ≡ true
    → contains q (fill_frame n ps f).sent ≡ true
unfolding fill_frame add_datagram
sent_keeps n [] f q h = h
sent_keeps n (p ∷ ps) f q h =
    ground (
      arith,
      sent_keeps n ps f q h,
      contains-append q p f.sent,
      sent_keeps n ps (add_datagram f p) q,
    )

-- What a frame takes was taken before, or is an eligible datagram of the queue.
pub sent_from :
    (n : ℕ) (ps : List ℕ) (f : Fill) (q : ℕ)
    → contains q (fill_frame n ps f).sent ≡ true
    → (contains q f.sent ≡ true) ⊎ ((contains q ps ≡ true) × (eligible n (f.cells q) ≡ true))
unfolding fill_frame add_datagram
sent_from n [] f q h = inl h
sent_from n (p ∷ ps) f q h = ground (
  arith,
  sent_from n ps f q,
  sent_from n ps (add_datagram f p) q,
  contains-append q p f.sent,
  add_datagram-Same f p q,
)

contains-add_datagram :
    (f : Fill) (p q : ℕ) → contains q (add_datagram f p).sent ≡ (contains q f.sent || p == q)
unfolding add_datagram
contains-add_datagram f p q = contains-append q p f.sent

-- A frame that is not cut short takes every eligible datagram.
pub sent_all :
    (n : ℕ) (ps : List ℕ) (f : Fill) (q : ℕ)
    → (fill_frame n ps f).more ≡ false
    → contains q ps ≡ true
    → eligible n (f.cells q) ≡ true
    → contains q (fill_frame n ps f).sent ≡ true
unfolding fill_frame
sent_all n [] f q h c e = cc
sent_all n (p ∷ ps) f q h c e = ground (
  arith,
  sent_all n ps f q,
  sent_all n ps (add_datagram f p) q,
  sent_keeps n ps (add_datagram f p) q,
  contains-add_datagram f p q,
  add_datagram-Same f p q,
)

pub contains-is_empty : (q : ℕ) (xs : List ℕ) → contains q xs ≡ true → is_empty xs ≡ false
contains-is_empty q [] h = cc
contains-is_empty q (x ∷ xs) h = refl

or_right : (a b : Bool) → b ≡ true → (a || b) ≡ true
or_right a b h = ground arith

-- A frame that takes nothing is not cut short, where each waiting datagram fits into a frame.
pub takes_some :
    (n : ℕ) (ps : List ℕ) (f : Fill)
    → f.sent ≡ []
    → f.body ≡ []
    → f.more ≡ false
    → ((q : ℕ)
        → contains q ps ≡ true
        → eligible n (f.cells q) ≡ true
        → (f.cells q).data_size ≤ 1486)
    → is_empty (fill_frame n ps f).sent ≡ true
    → (fill_frame n ps f).more ≡ false
unfolding fill_frame
takes_some n [] f s b m h e = m
takes_some n (p ∷ ps) f s b m h e = ground (
  arith,
  h p,
  ap length b,
  contains-is_empty p (fill_frame n ps (add_datagram f p)).sent,
  sent_keeps n ps (add_datagram f p) p,
  contains-add_datagram f p p,
  takes_some n ps f s b m (λ q c. h q (or_right (p == q) _ c)),
)

pub member_of_nonempty : (xs : List ℕ) → is_empty xs ≡ false → (q : ℕ) × (contains q xs ≡ true)
member_of_nonempty [] e = cc
member_of_nonempty (x ∷ xs) e = (x, ground arith)
