-- ===== src/Slave/Reached.antt =====
-- src/ec_slave.c, ec_slave_state_change: what it has read when it succeeds.
use cherry_ecat.Prelude.{
  ℕ, zero, suc, ◌+◌, ◌≡◌, refl, sym, subst, ap, true, false, inl, inr, arith, length, read_u16,
  List, [], ◌∷◌, ◌++◌, if◌then◌else◌, ◌∙◌, ==_iff, ◌⊎◌, test_bit, ◌==◌, ltb, sub_mod, u64_mod,
  write_u16,
}
use cherry_ecat.Datagram.{Datagram, DatagramType}
use cherry_ecat.Datagram.Fill.{fprd, fill, zero_data}
use cherry_ecat.Exchange.{Io, M, Out, ok, err, asserted, blocked, Errno, pure, fail}
use cherry_ecat.Exchange.Facts.{Gives, Gives-next, Gives-if, Gives-any}
use cherry_ecat.Exchange.Steps.{Slept, queued, Slept-queue_ext_datagram}
use cherry_ecat.Slave.State.{
  state_change_timeout_ns, read_register, write_control, read_state, or_timeout, poll_acked,
  state_clear_ack_error, poll_state, state_change,
}
use cherry_ecat.Slave.StateFacts.{stopped}

-- A read of the AL status code, the register at 0x134.
abbrev pub ReadsError : Datagram → Type 0
ReadsError d =
    (d.type ≡ DatagramType.fprd)
    × (a : List ℕ) × (s : ℕ) × (d.address ≡ write_u16 (write_u16 a 0 s) 2 0x134)

-- One of the datagrams queued is such a read: an error of the slave was looked at and acknowledged.
abbrev pub Acknowledged : List Datagram → Type 0
Acknowledged [] = ⊥
Acknowledged (d ∷ ds) = ReadsError d ⊎ Acknowledged ds

Acknowledged-append : (ds es : List Datagram) → Acknowledged ds → Acknowledged (ds ++ es)
Acknowledged-append [] es h = absurd h
Acknowledged-append (d ∷ ds) es (inl h) = inl h
Acknowledged-append (d ∷ ds) es (inr h) = inr (Acknowledged-append ds es h)

Acknowledged-last : (ds : List Datagram) (d : Datagram) → ReadsError d → Acknowledged (ds ++ d ∷ [])
Acknowledged-last [] d h = inl h
Acknowledged-last (e ∷ ds) d h = inr (Acknowledged-last ds d h)

-- The log only grows.
abbrev Grown : Io → Io → Type 0
Grown w w' = Acknowledged w.log → Acknowledged w'.log

Slept-Grown : (w : Io) (r : Out (Unit {0}) × Io) → Slept w r → Gives (λ _ w'. Grown w w') r
Slept-Grown w (ok a, w') (s, _) =
    λ h. subst Acknowledged (sym s.log) (Acknowledged-append w.log (queued w ∷ []) h)
Slept-Grown w (err e, w') s = tt
Slept-Grown w (asserted, w') s = tt
Slept-Grown w (blocked, w') s = tt

Slept-Acknowledged :
    (w : Io) (r : Out (Unit {0}) × Io)
    → ReadsError (queued w)
    → Slept w r
    → Gives (λ _ w'. Acknowledged w'.log) r
Slept-Acknowledged w (ok a, w') h (s, _) =
    subst Acknowledged (sym s.log) (Acknowledged-last w.log (queued w) h)
Slept-Acknowledged w (err e, w') h s = tt
Slept-Acknowledged w (asserted, w') h s = tt
Slept-Acknowledged w (blocked, w') h s = tt

Gives-read_register : (i ado : ℕ) (w : Io) → Gives (λ _ w'. Grown w w') (read_register i ado w)
unfolding read_register
Gives-read_register i ado w = Slept-Grown _ _ (Slept-queue_ext_datagram true _)

Gives-write_control : (i v : ℕ) (w : Io) → Gives (λ _ w'. Grown w w') (write_control i v w)
unfolding write_control
Gives-write_control i v w = Slept-Grown _ _ (Slept-queue_ext_datagram true _)

Gives-read_error : (i : ℕ) (w : Io) → Gives (λ _ w'. Acknowledged w'.log) (read_register i 0x134 w)
unfolding read_register fprd fill zero_data
Gives-read_error i w =
    Slept-Acknowledged _ _ (refl, w.datagram.address, (w.slaves i).station_address, refl)
      (Slept-queue_ext_datagram true _)

-- The state read is stored.
abbrev Read : ℕ → Io → ℕ → Io → Type 0
Read i w v w' = ((w'.slaves i).current_state ≡ v) × Grown w w'

Gives-read_state : (i : ℕ) (w : Io) → Gives (Read i w) (read_state i w)
unfolding read_state
Gives-read_state i w =
    Gives-next (λ _ w'. Grown w w') (Read i w) (read_register i 0x130 w) _
      (Gives-read_register i 0x130 w) λ _ w' g. (ground arith, g)

-- The state read last is the one given; or an error was acknowledged, and it is the one stored as
-- requested, without an error.
unfoldable pub Reached : ℕ → ℕ → Unit {0} → Io → Type 0
Reached i requested _ w =
    ((w.slaves i).current_state ≡ requested)
    ⊎ (Acknowledged w.log
        × ((w.slaves i).current_state ≡ (w.slaves i).requested_state)
        × (test_bit (w.slaves i).current_state 4 ≡ false))

Gives-or_timeout :
    (P : Unit {0} → Io → Type 0) (t s r : ℕ) (m : M (Unit {0})) (w : Io)
    → Gives P (m (record w { reads = w.reads + 1 }))
    → Gives P (or_timeout t s r m w)
unfolding or_timeout
Gives-or_timeout P t s r m w h =
    Gives-if P (ltb (state_change_timeout_ns s r) (sub_mod u64_mod (w.clock w.reads) t))
      (fail Errno.timeout) m _ (λ _. tt) (λ _. h)

Gives-poll_acked :
    (fuel i r q t : ℕ) (w : Io) → Acknowledged w.log → Gives (Reached i q) (poll_acked fuel i r t w)
unfolding poll_acked Reached
Gives-poll_acked zero i r q t w g = tt
Gives-poll_acked (suc fuel) i r q t w g =
    Gives-next (Read i w) (Reached i q) (read_state i w) _ (Gives-read_state i w) λ v w' e.
      Gives-if (Reached i q) (test_bit v 4) (or_timeout t v r (poll_acked fuel i r t))
        (if v == (w'.slaves i).requested_state then pure tt else fail Errno.alerr) w'
        (λ _.
          Gives-or_timeout (Reached i q) t v r (poll_acked fuel i r t) w'
            (Gives-poll_acked fuel i r q t _ (e.1 g)))
        (λ b.
          Gives-if (Reached i q) (v == (w'.slaves i).requested_state) (pure tt) (fail Errno.alerr)
            w'
            (λ k. inr (
              e.1 g,
              e.0 ∙ (==_iff v (w'.slaves i).requested_state).0 k,
              ap (λ (s : ℕ). test_bit s 4) e.0 ∙ b,
            ))
            (λ _. tt))

Gives-state_clear_ack_error :
    (i r q : ℕ) (w : Io) → Gives (Reached i q) (state_clear_ack_error i r w)
unfolding state_clear_ack_error
Gives-state_clear_ack_error i r q w =
    Gives-next (λ _ w'. Acknowledged w'.log) (Reached i q)
      (read_register i 0x134 (record w { reads = w.reads + 1 })) _
      (Gives-read_error i (record w { reads = w.reads + 1 }))
      λ _ w' g.
        let noted = record w' {
          slaves = λ j.
              if i == j
              then record (w'.slaves i) { alstatus_code = read_u16 w'.datagram.buf 0 }
              else w'.slaves j;
        } in
        Gives-next (λ _ w''. Grown noted w'') (Reached i q)
          (write_control i (w'.slaves i).current_state noted) _
          (Gives-write_control i (w'.slaves i).current_state noted)
          λ _ w'' k. Gives-poll_acked (suc (length w''.events)) i r q (w.clock w.reads) w'' (k g)

Gives-poll_state : (fuel i r o t : ℕ) (w : Io) → Gives (Reached i r) (poll_state fuel i r o t w)
unfolding poll_state Reached
Gives-poll_state zero i r o t w = tt
Gives-poll_state (suc fuel) i r o t w =
    Gives-next (Read i w) (Reached i r) (read_state i w) _ (Gives-read_state i w) λ v w' e.
      Gives-if (Reached i r) (v == r) (pure tt)
        (if stopped v o
          then state_clear_ack_error i r
          else or_timeout t v r (poll_state fuel i r v t))
        w' (λ k. inl (e.0 ∙ (==_iff v r).0 k))
        (λ _.
          Gives-if (Reached i r) (stopped v o) (state_clear_ack_error i r)
            (or_timeout t v r (poll_state fuel i r v t)) w'
            (λ _. Gives-state_clear_ack_error i r r w')
            (λ _.
              Gives-or_timeout (Reached i r) t v r (poll_state fuel i r v t) w'
                (Gives-poll_state fuel i r v t _)))

-- From any log on, which may have such a read already.
pub Gives-state_change :
    (i requested : ℕ) (w : Io) → Gives (Reached i requested) (state_change i requested w)
unfolding state_change
Gives-state_change i requested w =
    Gives-next (λ _ _. Unit) (Reached i requested) _ _
      (Gives-any (write_control i requested (record w { reads = w.reads + 1 })))
      λ _ w' _. Gives-poll_state (suc (length w'.events)) i requested _ _ w'

-- Let no datagram be logged before. Where a state change returns without an error, the state that it
-- has read last, and stored as the slave's current state, is the one asked for. The only exception is
-- a change in which the error of the slave was read to be acknowledged: then it may instead be the
-- slave's stored requested state, without the error flag.
pub state_change-Reached :
    (i requested : ℕ) (w : Io)
    → Gives (Reached i requested) (state_change i requested (record w { log = [] }))
state_change-Reached i requested w = Gives-state_change i requested (record w { log = [] })
