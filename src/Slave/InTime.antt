-- ===== src/Slave/InTime.antt =====
-- src/ec_slave.c, ec_slave_state_change: its timeouts bound the number of its sleeps.
use cherry_ecat.Prelude.{
  ℕ, zero, suc, ◌+◌, ◌-◌, ◌≤◌, ◌<◌, ◌≡◌, refl, sym, ap, subst, true, false, Bool, arith, length,
  sub_mod, u64_mod, ◌==◌, ltb, test_bit, read_u16, ◌∙◌, ◌*◌, if◌then◌else◌,
}
use cherry_ecat.Exchange.{Io, M, Out, ok, err, asserted, blocked, Errno, pure, fail, next}
use cherry_ecat.Exchange.Steps.{Slept, Slept-queue_ext_datagram}
use cherry_ecat.Slave.State.{
  state_change_timeout_ns, read_register, write_control, read_state, or_timeout, poll_acked,
  state_clear_ack_error, poll_state, state_change,
}
use cherry_ecat.Slave.StateFacts.{stopped}

-- An answer, an error or a failed assertion: no sleep without an end.
pub Returns : {A : Type 0} → Out A × Io → Type 0
Returns (ok a, w) = Unit
Returns (err e, w) = Unit
Returns (asserted, w) = Unit
Returns (blocked, w) = ⊥

-- The run is not blocked, and an answer leaves `n` events, the clock `c` and `k` readings.
abbrev Leaves : {A : Type 0} → ℕ → (ℕ → ℕ) → ℕ → Out A × Io → Type 0
Leaves n c k (ok a, w) = (length w.events ≡ n) × (w.clock ≡ c) × (w.reads ≡ k)
Leaves n c k (err e, w) = Unit
Leaves n c k (asserted, w) = Unit
Leaves n c k (blocked, w) = ⊥

Returns-next :
    {A B : Type 0} (n : ℕ) (c : ℕ → ℕ) (k : ℕ) (r : Out A × Io) (f : A → M B)
    → Leaves n c k r
    → ((a : A) (w : Io) → length w.events ≡ n → w.clock ≡ c → w.reads ≡ k → Returns (f a w))
    → Returns (next r f)
unfolding Returns
Returns-next n c k (ok a, w) f (h, e, l) g = g a w h e l
Returns-next n c k (err e, w) f h g = tt
Returns-next n c k (asserted, w) f h g = tt
Returns-next n c k (blocked, w) f h g = absurd h

Leaves-next :
    {A B : Type 0} (n m : ℕ) (c d : ℕ → ℕ) (k l : ℕ) (r : Out A × Io) (f : A → M B)
    → Leaves n c k r
    → ((a : A) (w : Io) → length w.events ≡ n → w.clock ≡ c → w.reads ≡ k → Leaves m d l (f a w))
    → Leaves m d l (next r f)
Leaves-next n m c d k l (ok a, w) f (h, e, q) g = g a w h e q
Leaves-next n m c d k l (err e, w) f h g = tt
Leaves-next n m c d k l (asserted, w) f h g = tt
Leaves-next n m c d k l (blocked, w) f h g = absurd h

Returns-if :
    {A : Type 0} (b : Bool) (m m' : M A) (w : Io)
    → (b ≡ true → Returns (m w))
    → (b ≡ false → Returns (m' w))
    → Returns ((if b then m else m') w)
Returns-if true m m' w h h' = h refl
Returns-if false m m' w h h' = h' refl

Slept-Leaves :
    (n : ℕ) (w : Io) (r : Out (Unit {0}) × Io)
    → suc n ≡ length w.events
    → Slept w r
    → Leaves n w.clock w.reads r
Slept-Leaves n w (ok a, w') h (s, _) = (omega (arith, s.events), s.clock, omega (arith, s.reads))
Slept-Leaves n w (err e, w') h s = tt
Slept-Leaves n w (asserted, w') h s = tt
Slept-Leaves n w (blocked, w') h s = absurd (omega (arith, ap length s))

register-Leaves :
    (n i ado : ℕ) (w : Io)
    → suc n ≡ length w.events
    → Leaves n w.clock w.reads (read_register i ado w)
unfolding read_register
register-Leaves n i ado w h = Slept-Leaves n _ _ h (Slept-queue_ext_datagram true _)

control-Leaves :
    (n i v : ℕ) (w : Io) → suc n ≡ length w.events → Leaves n w.clock w.reads (write_control i v w)
unfolding write_control
control-Leaves n i v w h = Slept-Leaves n _ _ h (Slept-queue_ext_datagram true _)

read_state-Leaves :
    (n i : ℕ) (w : Io) → suc n ≡ length w.events → Leaves n w.clock w.reads (read_state i w)
unfolding read_state
read_state-Leaves n i w h =
    Leaves-next n n w.clock w.clock w.reads w.reads (read_register i 0x130 w) _
      (register-Leaves n i 0x130 w h) λ a w' l c k. (l, c, k)

timeout_bound : (from to : ℕ) → state_change_timeout_ns from to ≤ 10000000000
unfolding state_change_timeout_ns
timeout_bound from to = ground arith

-- The reading of the clock `k` readings on is more than 10 s after `t`.
abbrev Late : (ℕ → ℕ) → ℕ → ℕ → Type 0
Late c t k = 10000000000 < sub_mod u64_mod (c k) t

or_timeout-now :
    (t s r : ℕ) (m : M (Unit {0})) (w : Io)
    → Late w.clock t w.reads
    → Returns (or_timeout t s r m w)
unfolding or_timeout Returns
or_timeout-now t s r m w l =
    let b : ltb (state_change_timeout_ns s r) (sub_mod u64_mod (w.clock w.reads) t) ≡ true =
      ground (arith, timeout_bound s r) in
    rw b tt

or_timeout-later :
    (t s r : ℕ) (m : M (Unit {0})) (w : Io)
    → Returns (m (record w { reads = w.reads + 1 }))
    → Returns (or_timeout t s r m w)
unfolding or_timeout Returns
or_timeout-later t s r m w h =
    Returns-if (ltb (state_change_timeout_ns s r) (sub_mod u64_mod (w.clock w.reads) t))
      (fail Errno.timeout) m _ (λ _. tt) (λ _. h)

-- A turn that ends by waiting, with `k` readings to go.
or_timeout-Returns :
    (k t s r : ℕ) (m : M (Unit {0})) (w : Io)
    → Late w.clock t (w.reads + k)
    → ((j : ℕ) → k ≡ suc j → Returns (m (record w { reads = w.reads + 1 })))
    → Returns (or_timeout t s r m w)
or_timeout-Returns zero t s r m w l h =
    or_timeout-now t s r m w (subst (λ (q : ℕ). Late w.clock t q) (omega arith) l)
or_timeout-Returns (suc j) t s r m w l h = or_timeout-later t s r m w (h j refl)

Late-at :
    (w a : Io) (t k l : ℕ)
    → a.clock ≡ w.clock
    → a.reads + l ≡ w.reads + k
    → Late w.clock t (w.reads + k)
    → Late a.clock t (a.reads + l)
Late-at w a t k l e f h =
    subst (λ c. Late c t (a.reads + l)) (sym e) (subst (λ (q : ℕ). Late w.clock t q) (sym f) h)

poll_acked-Returns :
    (k fuel i r t : ℕ) (w : Io)
    → length w.events < fuel
    → k < length w.events
    → Late w.clock t (w.reads + k)
    → Returns (poll_acked fuel i r t w)
unfolding poll_acked Returns
poll_acked-Returns k zero i r t w f e l = absurd (omega arith)
poll_acked-Returns k (suc fuel) i r t w f e l =
    Returns-next (length w.events - 1) w.clock w.reads (read_state i w) _
      (read_state-Leaves (length w.events - 1) i w (omega arith))
      λ v a n c q.
        Returns-if (test_bit v 4) (or_timeout t v r (poll_acked fuel i r t))
          (if v == (a.slaves i).requested_state then pure tt else fail Errno.alerr) a
          (λ _.
            or_timeout-Returns k t v r (poll_acked fuel i r t) a
              (Late-at w a t k k c (omega arith) l)
              λ j z.
                poll_acked-Returns j fuel i r t (record a { reads = a.reads + 1 }) (omega arith)
                  (omega arith)
                  (Late-at w (record a { reads = a.reads + 1 }) t k j c (omega arith) l))
          (λ _.
            Returns-if (v == (a.slaves i).requested_state) (pure tt) (fail Errno.alerr) a (λ _. tt)
              (λ _. tt))

-- After `k` further readings the clock is more than 10 s on.
abbrev pub Ticks : (ℕ → ℕ) → ℕ → Type 0
Ticks c k = (s : ℕ) → 10000000000 < sub_mod u64_mod (c (s + k)) (c s)

state_clear_ack_error-Returns :
    (k i r : ℕ) (w : Io)
    → Ticks w.clock (suc k)
    → 2 + suc k ≤ length w.events
    → Returns (state_clear_ack_error i r w)
unfolding state_clear_ack_error
state_clear_ack_error-Returns k i r w t h =
    Returns-next (length w.events - 1) w.clock (w.reads + 1)
      (read_register i 0x134 (record w { reads = w.reads + 1 })) _
      (register-Leaves (length w.events - 1) i 0x134 (record w { reads = w.reads + 1 })
        (omega arith))
      λ _ a n c q.
        let noted = record a {
          slaves = λ j.
              if i == j
              then record (a.slaves i) { alstatus_code = read_u16 a.datagram.buf 0 }
              else a.slaves j;
        } in
        Returns-next (length w.events - 2) a.clock a.reads
          (write_control i (a.slaves i).current_state noted) _
          (control-Leaves (length w.events - 2) i (a.slaves i).current_state noted (omega arith))
          λ _ b m d p.
            poll_acked-Returns k (suc (length b.events)) i r (w.clock w.reads) b (omega arith)
              (omega arith)
              (Late-at w b (w.clock w.reads) (suc k) k (d ∙ c) (omega arith) (t w.reads))

poll_state-Returns :
    (k m fuel i r o t : ℕ) (w : Io)
    → length w.events < fuel
    → Ticks w.clock (suc m)
    → k + (3 + suc m) ≤ length w.events
    → Late w.clock t (w.reads + k)
    → Returns (poll_state fuel i r o t w)
unfolding poll_state Returns
poll_state-Returns k m zero i r o t w f y e l = absurd (omega arith)
poll_state-Returns k m (suc fuel) i r o t w f y e l =
    Returns-next (length w.events - 1) w.clock w.reads (read_state i w) _
      (read_state-Leaves (length w.events - 1) i w (omega arith))
      λ v a n c q.
        let y' = subst (λ c. Ticks c (suc m)) (sym c) y in
        Returns-if (v == r) (pure tt)
          (if stopped v o
            then state_clear_ack_error i r
            else or_timeout t v r (poll_state fuel i r v t))
          a (λ _. tt)
          (λ _.
            Returns-if (stopped v o) (state_clear_ack_error i r)
              (or_timeout t v r (poll_state fuel i r v t)) a
              (λ _. state_clear_ack_error-Returns m i r a y' (omega arith))
              (λ _.
                or_timeout-Returns k t v r (poll_state fuel i r v t) a
                  (Late-at w a t k k c (omega arith) l)
                  λ j z.
                    poll_state-Returns j m fuel i r v t (record a { reads = a.reads + 1 })
                      (omega arith) y' (omega arith)
                      (Late-at w (record a { reads = a.reads + 1 }) t k j c (omega arith) l)))

-- If any k + 1 further readings of the clock take it more than 10 s on, which no timeout exceeds, and
-- if the bus ends at least 2 k + 5 sleeps, then ec_slave_state_change returns, whatever the answers
-- are: a slave that never gets to the requested state, or never takes back its error, is given up
-- by a timeout, so that no more sleeps than these are asked for.
pub state_change-Returns :
    (k i requested : ℕ) (w : Io)
    → Ticks w.clock (suc k)
    → 2 * k + 5 ≤ length w.events
    → Returns (state_change i requested w)
unfolding state_change
state_change-Returns k i requested w t h =
    Returns-next (length w.events - 1) w.clock (w.reads + 1)
      (write_control i requested (record w { reads = w.reads + 1 })) _
      (control-Leaves (length w.events - 1) i requested (record w { reads = w.reads + 1 })
        (omega arith))
      λ _ a n c q.
        poll_state-Returns k k (suc (length a.events)) i requested (w.slaves i).current_state
          (w.clock w.reads) a (omega arith) (subst (λ c. Ticks c (suc k)) (sym c) t) (omega arith)
          (Late-at w a (w.clock w.reads) (suc k) k c (omega arith) (t w.reads))
