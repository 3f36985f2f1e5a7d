-- ===== src/Slave/Config/Monitor.antt =====
-- src/ec_slave.c, ec_master_scan_slaves_state: every slave's state is read, an error is acknowledged,
-- and a slave that is not in the requested state, or that is forced to, is configured.
pub mod Awake
use cherry_ecat.Prelude.{
  ℕ, zero, suc, ◌+◌, Bool, true, false, if◌then◌else◌, not, ◌==◌, ◌&&◌, ◌||◌, Option, none, some,
  read_u8, test_bit,
}
use cherry_ecat.Exchange.{
  M, Out, Io, ok, err, asserted, blocked, pure, ◌>>=◌, ◌>>◌, get, edit_slave,
}
use cherry_ecat.Slave.State.{read_register, state_clear_ack_error}
use cherry_ecat.Slave.Config.{Setup}
use cherry_ecat.Slave.Config.Stages.{slave_config}

-- A call whose error is not passed on: `none` stands for an error.
abbrev pub tried : {A : Type 0} → Out A × Io → Out (Option A) × Io
tried (ok a, w) = (ok (some a), w)
tried (err e, w) = (ok none, w)
tried (asserted, w) = (asserted, w)
tried (blocked, w) = (blocked, w)

abbrev pub attempt : {A : Type 0} → M A → M (Option A)
attempt m w = tried (m w)

-- The last part of the loop's body. The result of these is the new value of `force_update`.
unfoldable pub configure_if : ℕ → Setup → Bool → M Bool
unfolding slave_config
configure_if i st force_update = do
  w ← get
  let s = w.slaves i
  if (not (s.requested_state == s.current_state) && s.alstatus_code == 0) || force_update
      then (attempt (slave_config i st) >>= λ _. pure false)
      else pure force_update

-- A `continue` after an error.
abbrev pub or_continue : Bool → M Bool → Option (Unit {0}) → M Bool
or_continue force_update m none = pure force_update
or_continue force_update m (some u) = m

-- What follows the datagram that read the state.
unfoldable pub judge_state : ℕ → Setup → Bool → M Bool
unfolding state_clear_ack_error configure_if
judge_state i st force_update = do
  w ← get
  let v = read_u8 w.datagram.buf 0
  edit_slave i (λ s. record s { current_state = v })
  let reset = edit_slave i (λ s. record s { alstatus_code = 0 })
  acked ←
      if test_bit v 4
      then attempt (state_clear_ack_error i (w.slaves i).requested_state)
      else attempt reset
  or_continue force_update (configure_if i st force_update) acked

-- The loop's body.
unfoldable pub check_state : ℕ → Setup → Bool → M Bool
unfolding read_register judge_state
check_state i st force_update = do
  answered ← attempt (read_register i 0x130)
  or_continue force_update (judge_state i st force_update) answered

-- ec_master_scan_slaves_state, over the `left` slaves from position `i` on; the result has the flags
-- `force_update`.
unfoldable pub scan_slaves_state : ℕ → ℕ → (ℕ → Setup) → (ℕ → Bool) → M (ℕ → Bool)
unfolding check_state
scan_slaves_state zero i setups force_update = pure force_update
scan_slaves_state (suc left) i setups force_update = do
  f ← check_state i (setups i) (force_update i)
  scan_slaves_state left (i + 1) setups (λ j. if i == j then f else force_update j)
