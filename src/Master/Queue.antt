-- ===== src/Master/Queue.antt =====
-- The datagram queue of src/ec_master.c, for ec_master_queue_datagram: no pointer is linked twice, and
-- what is linked is QUEUED or SENT.
use cherry_ecat.Prelude.{
  ℕ, ◌≡◌, refl, List, [], ◌∷◌, ◌++◌, Bool, true, false, if◌then◌else◌, Bool-cases, arith, inl, inr,
  ◌||◌, ◌==◌,
}
use cherry_ecat.Datagram.{DatagramState}
use cherry_ecat.Master.{Master, contains, remove, queue_datagram}

-- No pointer occurs twice.
abbrev pub Distinct : List ℕ → Type 0
Distinct [] = Unit {0}
Distinct (p ∷ ps) = (contains p ps ≡ false) × Distinct ps

abbrev pub in_flight : DatagramState → Bool
in_flight DatagramState.queued = true
in_flight DatagramState.sent = true
in_flight _ = false

pub record IsValid (m : Master) : Type 0 where
  pub distinct : Distinct m.queue
  pub live : (p : ℕ) → contains p m.queue ≡ true → in_flight (m.cells p).state ≡ true

pub contains-append :
    (q p : ℕ) (xs : List ℕ) → contains q (xs ++ p ∷ []) ≡ (contains q xs || p == q)
contains-append q p [] = ground arith
contains-append q p (x ∷ xs) = ground (arith, contains-append q p xs)

pub Distinct-append :
    (p : ℕ) (xs : List ℕ) → contains p xs ≡ false → Distinct xs → Distinct (xs ++ p ∷ [])
Distinct-append p [] h d = (refl, tt)
Distinct-append p (x ∷ xs) h d = ground (arith, contains-append x p xs, Distinct-append p xs)

-- Removing a pointer that is linked at most once unlinks it, and nothing else.
pub contains-remove :
    (q p : ℕ) (xs : List ℕ)
    → Distinct xs
    → contains q (remove p xs) ≡ (if p == q then false else contains q xs)
contains-remove q p [] d = ground arith
contains-remove q p (x ∷ xs) d = ground (arith, contains-remove q p xs d.1)

pub Distinct-remove : (p : ℕ) (xs : List ℕ) → Distinct xs → Distinct (remove p xs)
Distinct-remove p [] d = tt
Distinct-remove p (x ∷ xs) d = ground (arith, Distinct-remove p xs, contains-remove x p xs d.1)

-- ec_master_queue_datagram keeps the queue valid.
pub queue_datagram-IsValid : (m : Master) (p : ℕ) → IsValid m → IsValid (queue_datagram m p)
unfolding queue_datagram
queue_datagram-IsValid m p v = elim (Bool-cases (contains p m.queue)) [
  | inl h ↦ rw h (record { distinct = v.distinct; live = λ q c. ground (arith, v.live q) })
  | inr h ↦ rw h (record {
    distinct = Distinct-append p m.queue h v.distinct;
    live = λ q c. ground (arith, v.live q, contains-append q p m.queue);
  })
]
