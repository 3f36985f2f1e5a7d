-- ===== src/Slave/State.antt =====
-- src/ec_slave.c: the application state of a slave. A state is the byte of ec_slave_state_t.
use cherry_ecat.Prelude.{
  ℕ, zero, suc, ◌%◌, true, ltb, ◌==◌, ◌&&◌, ◌||◌, not, read_u8, read_u16, write_u16, sub_mod,
  u64_mod, length, test_bit, if◌then◌else◌,
}
use cherry_ecat.Datagram.Fill.{fpwr, fprd, zero_data}
use cherry_ecat.Exchange.{
  M, Errno, pure, fail, block, ◌>>=◌, ◌>>◌, get, edit, edit_slave, jiffies, queue_ext_datagram,
}

abbrev pub state_init : ℕ
state_init = 1

abbrev pub state_preop : ℕ
state_preop = 2

abbrev pub state_boot : ℕ
state_boot = 3

abbrev pub state_safeop : ℕ
state_safeop = 4

abbrev pub state_op : ℕ
state_op = 8

-- ec_slave_state_change_timeout_ns
unfoldable pub state_change_timeout_ns : ℕ → ℕ → ℕ
state_change_timeout_ns from to =
    if from == state_init && (to == state_preop || to == state_boot)
    then 3000000000
    else if (from == state_preop && to == state_safeop) || (from == state_safeop && to == state_op)
    then 10000000000
    else if to == state_init || ((from == state_op || from == state_safeop) && to == state_preop)
    then 5000000000
    else if from == state_op && to == state_safeop
    then 200000000
    else 10000000000

-- A read of `size` bytes of the slave's register at `ado`.
unfoldable pub read_register : ℕ → ℕ → M (Unit {0})
read_register i ado = do
  w ← get
  let s = w.slaves i
  edit (λ d. record (zero_data (fprd d s.station_address ado 2)) { netdev_idx = s.netdev_idx })
  queue_ext_datagram true true

-- A write of a word to the AL control register at 0x120.
unfoldable pub write_control : ℕ → ℕ → M (Unit {0})
write_control i v = do
  w ← get
  let s = w.slaves i
  edit (λ d. fpwr d s.station_address 0x120 2)
  edit (λ d. record d { buf = write_u16 d.buf 0 v; netdev_idx = s.netdev_idx })
  queue_ext_datagram true true

-- The AL status register at 0x130, read into current_state.
unfoldable pub read_state : ℕ → M ℕ
read_state i = do
  read_register i 0x130
  w ← get
  let v = read_u8 w.datagram.buf 0
  edit_slave i (λ s. record s { current_state = v })
  pure v

-- The end of a turn of a loop: give up after the timeout, or go on.
unfoldable pub or_timeout : ℕ → ℕ → ℕ → M (Unit {0}) → M (Unit {0})
unfolding state_change_timeout_ns
or_timeout start_time state requested again = do
  now ← jiffies
  if ltb (state_change_timeout_ns state requested) (sub_mod u64_mod now start_time)
      then fail Errno.timeout
      else again

-- The loop at `repeat_check` of ec_slave_state_clear_ack_error; each turn uses up an event.
unfoldable pub poll_acked : ℕ → ℕ → ℕ → ℕ → M (Unit {0})
poll_acked zero i requested start_time = block
poll_acked (suc fuel) i requested start_time = do
  state ← read_state i
  w ← get
  let again = poll_acked fuel i requested start_time
  if test_bit state 4
      then or_timeout start_time state requested again
      else if state == (w.slaves i).requested_state
      then pure tt
      else fail Errno.alerr

-- ec_slave_state_clear_ack_error
unfoldable pub state_clear_ack_error : ℕ → ℕ → M (Unit {0})
state_clear_ack_error i requested = do
  start_time ← jiffies
  read_register i 0x134
  w ← get
  edit_slave i (λ s. record s { alstatus_code = read_u16 w.datagram.buf 0 })
  write_control i (w.slaves i).current_state
  w' ← get
  poll_acked (suc (length w'.events)) i requested start_time

-- The loop at `repeat_check` of ec_slave_state_change; each turn uses up an event.
unfoldable pub poll_state : ℕ → ℕ → ℕ → ℕ → ℕ → M (Unit {0})
poll_state zero i requested old_state start_time = block
poll_state (suc fuel) i requested old_state start_time = do
  state ← read_state i
  let again = poll_state fuel i requested state start_time
  if state == requested
      then pure tt
      else if not (state == old_state) && state % 16 == old_state % 16
      then state_clear_ack_error i requested
      else or_timeout start_time state requested again

-- ec_slave_state_change
unfoldable pub state_change : ℕ → ℕ → M (Unit {0})
state_change i requested = do
  w ← get
  start_time ← jiffies
  write_control i requested
  w' ← get
  poll_state (suc (length w'.events)) i requested (w.slaves i).current_state start_time
