-- ===== src/Slave/StateFacts.antt =====
-- The events that the state changes of src/ec_slave.c use up, while finitely many sleeps end.
use cherry_ecat.Prelude.{
  ℕ, zero, suc, ◌+◌, ◌<◌, Bool, true, arith, length, if◌then◌else◌, sub_mod, u64_mod, not, ◌&&◌,
  ◌%◌, test_bit, ◌==◌, ltb,
}
use cherry_ecat.Exchange.{Io, M, Errno, pure, fail}
use cherry_ecat.Exchange.Facts.{Post, Post-if, Post-next, Post-then, Post-queue_ext_datagram}
use cherry_ecat.Slave.State.{
  state_change_timeout_ns, read_register, write_control, read_state, or_timeout, poll_acked,
  state_clear_ack_error, poll_state, state_change,
}

pub Post-read_register : (i ado : ℕ) (w : Io) → Post 1 (length w.events) (read_register i ado w)
unfolding read_register
Post-read_register i ado w = Post-queue_ext_datagram true _

Post-write_control : (i v : ℕ) (w : Io) → Post 1 (length w.events) (write_control i v w)
unfolding write_control
Post-write_control i v w = Post-queue_ext_datagram true _

Post-read_state : (i : ℕ) (w : Io) → Post 1 (length w.events) (read_state i w)
unfolding read_state
Post-read_state i w =
    Post-next 1 0 (length w.events) _ _ (Post-read_register i 0x130 w) λ _ w' h. omega arith

-- A turn of a loop that ends by waiting for its timeout, after `m` a further turn.
Post-or_timeout :
    (t s r n : ℕ) (m : M (Unit {0})) (w : Io)
    → Post 0 n (m (record w { reads = w.reads + 1 }))
    → Post 0 n (or_timeout t s r m w)
unfolding or_timeout
Post-or_timeout t s r n m w h =
    Post-if (ltb (state_change_timeout_ns s r) (sub_mod u64_mod (w.clock w.reads) t)) 0 n
      (fail Errno.timeout) m _ tt h

Post-poll_acked :
    (fuel i r t : ℕ) (w : Io)
    → length w.events < fuel
    → Post 0 (length w.events) (poll_acked fuel i r t w)
unfolding poll_acked
Post-poll_acked zero i r t w h = absurd (omega arith)
Post-poll_acked (suc fuel) i r t w h =
    Post-then 1 (length w.events) _ _ (Post-read_state i w) λ v w' k.
      Post-if (test_bit v 4) 0 (length w'.events) (or_timeout t v r (poll_acked fuel i r t))
        (if v == (w'.slaves i).requested_state then pure tt else fail Errno.alerr) w'
        (Post-or_timeout t v r (length w'.events) (poll_acked fuel i r t) w'
          (Post-poll_acked fuel i r t (record w' { reads = w'.reads + 1 }) (omega arith)))
        (Post-if (v == (w'.slaves i).requested_state) 0 (length w'.events) (pure tt)
          (fail Errno.alerr) w' (omega arith) tt)

pub Post-state_clear_ack_error :
    (i r : ℕ) (w : Io) → Post 0 (length w.events) (state_clear_ack_error i r w)
unfolding state_clear_ack_error
Post-state_clear_ack_error i r w =
    Post-then 1 (length w.events) _ _ (Post-read_register i 0x134 _) λ _ w' h.
      Post-then 1 (length w'.events) _ _ (Post-write_control i _ _)
        λ _ w'' k. Post-poll_acked (suc (length w''.events)) i r _ w'' (omega arith)

-- The test of ec_slave_state_change for a state that has changed in its flags only.
abbrev pub stopped : ℕ → ℕ → Bool
stopped v o = not (v == o) && v % 16 == o % 16

Post-poll_state :
    (fuel i r o t : ℕ) (w : Io)
    → length w.events < fuel
    → Post 0 (length w.events) (poll_state fuel i r o t w)
unfolding poll_state
Post-poll_state zero i r o t w h = absurd (omega arith)
Post-poll_state (suc fuel) i r o t w h =
    Post-then 1 (length w.events) _ _ (Post-read_state i w) λ v w' k.
      Post-if (v == r) 0 (length w'.events) (pure tt)
        (if stopped v o
          then state_clear_ack_error i r
          else or_timeout t v r (poll_state fuel i r v t))
        w' (omega arith)
        (Post-if (stopped v o) 0 (length w'.events) (state_clear_ack_error i r)
          (or_timeout t v r (poll_state fuel i r v t)) w' (Post-state_clear_ack_error i r w')
          (Post-or_timeout t v r (length w'.events) (poll_state fuel i r v t) w'
            (Post-poll_state fuel i r v t (record w' { reads = w'.reads + 1 }) (omega arith))))

-- A state change has an end where finitely many sleeps end: whatever the slave and the bus answer, it returns, or it
-- sleeps on a datagram that no event comes for any more, all events before being used up.
pub state_change-Post :
    (i requested : ℕ) (w : Io) → Post 0 (length w.events) (state_change i requested w)
unfolding state_change
state_change-Post i requested w =
    Post-then 1 (length w.events) _ _ (Post-write_control i requested _)
      λ _ w' h. Post-poll_state (suc (length w'.events)) i requested _ _ w' (omega arith)
