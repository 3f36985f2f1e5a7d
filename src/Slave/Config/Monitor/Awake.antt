-- ===== src/Slave/Config/Monitor/Awake.antt =====
-- src/ec_slave.c, ec_master_scan_slaves_state: it goes over all slaves, or sleeps, where
-- finitely many sleeps end.
use cherry_ecat.Prelude.{
  ℕ, zero, suc, ◌+◌, ◌≡◌, Bool, true, false, if◌then◌else◌, not, ◌==◌, ◌&&◌, ◌||◌, Option, none,
  some, read_u8, test_bit, [], length,
}
use cherry_ecat.Exchange.{M, Out, Io, ok, err, asserted, blocked, pure, ◌>>=◌, edit_slave, next}
use cherry_ecat.Exchange.Facts.{Post}
use cherry_ecat.Slave.State.{state_clear_ack_error}
use cherry_ecat.Slave.StateFacts.{Post-read_register, Post-state_clear_ack_error}
use cherry_ecat.Slave.Config.{Setup}
use cherry_ecat.Slave.Config.Stages.{slave_config}
use cherry_ecat.Slave.Config.Waits.{slave_config-Post}
use cherry_ecat.Slave.Config.Monitor.{
  tried, attempt, configure_if, or_continue, judge_state, check_state, scan_slaves_state,
}

-- A run gets to its end, or to an assertion that fails, or sleeps when no event is left.
abbrev pub Completes : {A : Type 0} → Out A × Io → Type 0
Completes (ok a, w) = Unit
Completes (err e, w) = ⊥
Completes (asserted, w) = Unit
Completes (blocked, w) = w.events ≡ []

Completes-tried : {A : Type 0} (k n : ℕ) (r : Out A × Io) → Post k n r → Completes (tried r)
Completes-tried k n (ok a, w) h = tt
Completes-tried k n (err e, w) h = tt
Completes-tried k n (asserted, w) h = tt
Completes-tried k n (blocked, w) h = h

Completes-next :
    {A B : Type 0} (r : Out A × Io) (f : A → M B)
    → Completes r
    → ((a : A) (w : Io) → Completes (f a w))
    → Completes (next r f)
Completes-next (ok a, w) f h g = g a w
Completes-next (err e, w) f h g = absurd h
Completes-next (asserted, w) f h g = tt
Completes-next (blocked, w) f h g = h

Completes-if :
    {A : Type 0} (b : Bool) (m m' : M A) (w : Io)
    → Completes (m w)
    → Completes (m' w)
    → Completes ((if b then m else m') w)
Completes-if true m m' w h h' = h
Completes-if false m m' w h h' = h'

configure_if-Completes :
    (i : ℕ) (st : Setup) (f : Bool) (w : Io) → Completes (configure_if i st f w)
unfolding configure_if
configure_if-Completes i st f w =
    let s = w.slaves i in
    Completes-if ((not (s.requested_state == s.current_state) && s.alstatus_code == 0) || f)
      (attempt (slave_config i st) >>= λ _. pure false) (pure f) w
      (Completes-next _ _
        (Completes-tried 0 (length w.events) (slave_config i st w) (slave_config-Post i st w))
        λ _ w'. tt)
      tt

or_continue-Completes :
    (f : Bool) (m : M Bool) (o : Option (Unit {0})) (w : Io)
    → ((w' : Io) → Completes (m w'))
    → Completes (or_continue f m o w)
or_continue-Completes f m none w h = tt
or_continue-Completes f m (some u) w h = h w

judge_state-Completes : (i : ℕ) (st : Setup) (f : Bool) (w : Io) → Completes (judge_state i st f w)
unfolding judge_state
judge_state-Completes i st f w =
    Completes-next _ _
      (Completes-if (test_bit (read_u8 w.datagram.buf 0) 4)
        (attempt (state_clear_ack_error i (w.slaves i).requested_state))
        (attempt (edit_slave i (λ s. record s { alstatus_code = 0 }))) _
        (Completes-tried 0 _ _ (Post-state_clear_ack_error i (w.slaves i).requested_state _)) tt)
      λ o w'. or_continue-Completes f (configure_if i st f) o w' (configure_if-Completes i st f)

check_state-Completes : (i : ℕ) (st : Setup) (f : Bool) (w : Io) → Completes (check_state i st f w)
unfolding check_state
check_state-Completes i st f w =
    Completes-next _ _ (Completes-tried 1 (length w.events) _ (Post-read_register i 0x130 w))
      λ o w'. or_continue-Completes f (judge_state i st f) o w' (judge_state-Completes i st f)

-- ec_master_scan_slaves_state has an end where finitely many sleeps end and never fails, whatever the slaves and the bus
-- answer: it goes over all slaves, an error of one of them notwithstanding, stops at an assertion,
-- or sleeps on a datagram that no event comes for any more, all events being used up.
pub scan_slaves_state-Completes :
    (left i : ℕ) (setups : ℕ → Setup) (force_update : ℕ → Bool) (w : Io)
    → Completes (scan_slaves_state left i setups force_update w)
unfolding scan_slaves_state
scan_slaves_state-Completes zero i setups force_update w = tt
scan_slaves_state-Completes (suc left) i setups force_update w =
    Completes-next _ _ (check_state-Completes i (setups i) (force_update i) w)
      λ f w'. scan_slaves_state-Completes left (i + 1) setups _ w'
