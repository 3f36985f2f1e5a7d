-- ===== src/Master/Retire.antt =====
-- What it means that datagrams are completed: the relation between the states of the queue that
-- receiving, expiring and failing datagrams all satisfy.
use cherry_ecat.Prelude.{
  ℕ, ◌≡◌, refl, Bool, true, false, if◌then◌else◌, Bool-cases, arith, inl, inr, ◌||◌, ◌==◌, ◌∙◌, ap,
  ◌&&◌,
}
use cherry_ecat.Datagram.{Datagram, DatagramState}
use cherry_ecat.Master.{Master, contains, remove, store, unqueue_datagram}
use cherry_ecat.Master.Queue.{Distinct, contains-append, contains-remove, Distinct-remove}

-- The states of a datagram that has left the queue.
abbrev pub is_final : DatagramState → Bool
is_final DatagramState.received = true
is_final DatagramState.timed_out = true
is_final DatagramState.error = true
is_final _ = false

-- What the operations that complete datagrams do: a datagram stays linked and keeps its state, or
-- it is unlinked in a final state, its waiter woken and its flag cleared; what was not linked is
-- not touched.
pub record Retires (m m' : Master) : Type 0 where
  pub stays :
      (q : ℕ)
      → contains q m'.queue ≡ true
      → (contains q m.queue ≡ true)
        × ((m'.cells q).state ≡ (m.cells q).state)
        × ((m'.cells q).waiter ≡ (m.cells q).waiter)
  pub leaves :
      (q : ℕ)
      → contains q m.queue ≡ true
      → contains q m'.queue ≡ false
      → (is_final (m'.cells q).state ≡ true)
        × ((m'.cells q).waiter ≡ false)
        × ((m.cells q).waiter ≡ true → contains q m'.wakeups ≡ true)
  pub wakes : (q : ℕ) → contains q m.wakeups ≡ true → contains q m'.wakeups ≡ true
  pub distinct : Distinct m'.queue
  pub others : (q : ℕ) → contains q m.queue ≡ false → m'.cells q ≡ m.cells q

pub Retires-refl : (m : Master) → Distinct m.queue → Retires m m
Retires-refl m d = record {
  stays = λ q c. (c, refl, refl);
  leaves = λ q c n. cc;
  wakes = λ q c. c;
  distinct = d;
  others = λ q c. refl;
}

-- Counters, frames and the clock do not matter.
pub Retires-same :
    (m m' : Master)
    → Distinct m.queue
    → m'.queue ≡ m.queue
    → m'.cells ≡ m.cells
    → m'.wakeups ≡ m.wakeups
    → Retires m m'
Retires-same m m' d e f g = record {
  stays = λ q c. ground (arith, ap (contains q) e, ap (λ (h : ℕ → Datagram). h q) f);
  leaves = λ q c n. ground (arith, ap (contains q) e);
  wakes = λ q c. rw g c;
  distinct = rw e d;
  others = λ q c. ap (λ (h : ℕ → Datagram). h q) f;
}

pub Retires-trans : {a b c : Master} → Retires a b → Retires b c → Retires a c
Retires-trans {a} {b} {c} r s = record {
  stays = λ q h. ground (arith, s.stays q h, r.stays q);
  leaves = λ q h n. elim (Bool-cases (contains q b.queue)) [
    | inl k ↦ ground (arith, s.leaves q k n, r.stays q k)
    | inr k ↦ ground (arith, r.leaves q h k, s.others q k, s.wakes q)
  ];
  wakes = λ q h. s.wakes q (r.wakes q h);
  distinct = s.distinct;
  others = λ q h. ground (arith, s.others q, r.others q h, s.stays q, r.stays q);
}

module _ (m : Master) (p : ℕ) where
  pub queue-unqueue : (unqueue_datagram m p).queue ≡ remove p m.queue
  unfolding unqueue_datagram
  queue-unqueue = ground arith

  -- The states stay, the flag of `p` is cleared, and no other datagram is written.
  cells-unqueue :
      (q : ℕ)
      → (((unqueue_datagram m p).cells q).state ≡ (m.cells q).state)
        × (((unqueue_datagram m p).cells q).waiter ≡ (if p == q then false else (m.cells q).waiter))
  unfolding unqueue_datagram
  cells-unqueue q = ground arith

  others-unqueue : (q : ℕ) → (p == q) ≡ false → (unqueue_datagram m p).cells q ≡ m.cells q
  unfolding unqueue_datagram
  others-unqueue q h = elim (Bool-cases (m.cells p).waiter) [ inl w ↦ simp (w, h) | inr w ↦ simp w ]

  wakeups-unqueue :
      (q : ℕ)
      → contains q (unqueue_datagram m p).wakeups
        ≡ (contains q m.wakeups || ((m.cells p).waiter && p == q))
  unfolding unqueue_datagram
  wakeups-unqueue q = ground (arith, contains-append q p m.wakeups)

-- Completing one linked datagram.
module _ (m : Master) (p : ℕ) (d : Datagram) where
  abbrev completed : Master
  completed = record m { cells = store m.cells p d }

  pub unqueue-Retires :
      contains p m.queue ≡ true
      → Distinct m.queue
      → is_final d.state ≡ true
      → d.waiter ≡ (m.cells p).waiter
      → Retires m (unqueue_datagram completed p)
  unqueue-Retires c v f w = record {
    stays = λ q h. ground (
      arith,
      queue-unqueue completed p,
      cells-unqueue completed p q,
      contains-remove q p m.queue v,
    );
    leaves = λ q h n. ground (
      arith,
      queue-unqueue completed p,
      cells-unqueue completed p q,
      contains-remove q p m.queue v,
      wakeups-unqueue completed p q,
    );
    wakes = λ q h. ground (arith, wakeups-unqueue completed p q);
    distinct = rw (queue-unqueue completed p) (Distinct-remove p m.queue v);
    others = λ q h.
        let ne : (p == q) ≡ false = ground arith in others-unqueue completed p q ne ∙ simp ne;
  }
