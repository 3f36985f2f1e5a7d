-- ===== src/Tests/Bus.antt =====
-- Runs of the functions of src/ec_slave.c, src/ec_mailbox.c, src/ec_sii.c, src/ec_coe.c and
-- src/ec_common.c that exchange datagrams with a slave, or name what it answered.
use cherry_ecat.Prelude.{◌*◌, ◌≡◌, refl, List, [], ◌∷◌, false, replicate, arith, ℕ}
use cherry_ecat.Datagram.{Datagram, DatagramType, DatagramState}
use cherry_ecat.Slave.{Slave}
use cherry_ecat.Datagram.Fill.{zero_data, fpwr, fprd, fill}
use cherry_ecat.Master.Receive.{deliver}
use cherry_ecat.Slave.State.{
  write_control, poll_state, read_state, read_register, or_timeout, state_change_timeout_ns,
  state_change, state_safeop,
}
use cherry_ecat.Slave.Arrives.{Arrived, state_change-Arrived}
use cherry_ecat.Messages.Search.{Messaged, strings-Messaged}
use cherry_ecat.Messages.Tables.{
  al_status_messages, mbox_error_messages, sdo_abort_messages, foe_errcode_messages,
  eoe_errcode_messages,
}
use cherry_ecat.Messages.Strings.{
  alstatus_string, mbox_error_string, sdo_abort_string, foe_errorcode_string, eoe_errorcode_string,
}
use cherry_ecat.Slave.Reached.{Reached, state_change-Reached}
use cherry_ecat.Slave.InTime.{Returns, Ticks, state_change-Returns}
use cherry_ecat.Exchange.{Errno, queue_ext_datagram, wait, finish_wait, Out, Io, Event, received}
use cherry_ecat.Exchange.Facts.{Gives}
use cherry_ecat.Coe.Upload.{upload_normal}
use cherry_ecat.Coe.Counted.{Fitting, upload_normal-Counted}

abbrev pub drive : Slave
drive = record {
  index = 0;
  netdev_idx = 0;
  station_address = 1001;
  requested_state = 4;
  current_state = 2;
  alstatus_code = 0;
  configured_rx_mailbox_offset = 0x1000;
  configured_rx_mailbox_size = 32;
  configured_tx_mailbox_offset = 0x1080;
  configured_tx_mailbox_size = 32;
}

abbrev pub main_datagram : Datagram
main_datagram = record {
  netdev_idx = 0;
  type = DatagramType.none;
  static_alloc = false;
  address = 0 ∷ 0 ∷ 0 ∷ 0 ∷ [];
  buf = replicate 32 0;
  mem_size = 32;
  data_size = 0;
  index = 0;
  working_counter = 0;
  state = DatagramState.init;
  jiffies_sent = 0;
  jiffies_received = 0;
  waiter = false;
}

-- A bus with the slave, on which `events` will happen.
abbrev pub bus : List Event → Io
bus events = record {
  slaves = λ i. drive;
  slave_count = 1;
  datagram = main_datagram;
  events = events;
  log = [];
  polls = 0;
  clock = λ n. 1000 * n;
  reads = 0;
  written = [];
}

-- The write of the state is taken, and the second reading of the status shows it.
abbrev pub slow_slave : List Event
slow_slave = received 1 (4 ∷ 0 ∷ []) ∷ received 1 (2 ∷ 0 ∷ []) ∷ received 1 (4 ∷ 0 ∷ []) ∷ []

-- The state change above ends with the state read last.
state_change_run : (state_change 0 state_safeop (bus slow_slave)).0 ≡ Out.ok tt
unfolding state_change write_control poll_state read_state read_register or_timeout
    state_change_timeout_ns queue_ext_datagram wait finish_wait deliver zero_data fpwr fprd fill
state_change_run = refl

state_change-Reached_example : Gives (Reached 0 4) (state_change 0 4 (bus slow_slave))
state_change-Reached_example = state_change-Reached 0 4 (bus slow_slave)

-- An answer to an upload that has more bytes behind its header than the size in it.
abbrev padded : List ℕ
padded = 20 ∷ 0 ∷ 0 ∷ 0 ∷ 0 ∷ 3 ∷ 0 ∷ 48 ∷ 65 ∷ 0x41 ∷ 0x60 ∷ 0 ∷ 2 ∷ 0 ∷ 0 ∷ 0 ∷ replicate 10 7

upload_normal-Counted_example : Gives (Fitting 64 2 []) (upload_normal 0 64 12 padded (bus []))
upload_normal-Counted_example = upload_normal-Counted 0 64 12 padded (bus []) (omega arith)

-- The same bus while the clock stands still.
abbrev slow_bus : Io
slow_bus = record (bus slow_slave) { clock = λ n. 1000 }

state_change-Arrived_example : Arrived 0 4 [] (state_change 0 4 slow_bus)
state_change-Arrived_example =
    state_change-Arrived 0 4 (4 ∷ 0 ∷ []) (2 ∷ []) slow_bus 0 (replicate 31 0) [] refl refl
      (refl, refl, tt) (λ n s. ground arith)

-- A slave that stays in PREOP, for 40 readings, while a second passes between two readings of the clock.
abbrev stuck_bus : Io
stuck_bus = record (bus (replicate 40 (received 1 (2 ∷ 0 ∷ [])))) { clock = λ n. 1000000000 * n }

stuck-Ticks : Ticks stuck_bus.clock 11
stuck-Ticks s = omega arith

state_change-Returns_example : Returns (state_change 0 4 stuck_bus)
state_change-Returns_example = state_change-Returns 10 0 4 stuck_bus stuck-Ticks (omega arith)

stuck_run : (state_change 0 state_safeop stuck_bus).0 ≡ Out.err Errno.timeout
unfolding state_change write_control poll_state read_state read_register or_timeout
    state_change_timeout_ns queue_ext_datagram wait finish_wait deliver zero_data fpwr fprd fill
stuck_run = refl

strings-Messaged_example :
    Messaged 0xffff 0x11 al_status_messages (alstatus_string 0x11)
    × Messaged 0xffffffff 0x11 mbox_error_messages (mbox_error_string 0x11)
    × Messaged 0xffffffff 0x11 sdo_abort_messages (sdo_abort_string 0x11)
    × Messaged 0xffffffff 0x11 foe_errcode_messages (foe_errorcode_string 0x11)
    × Messaged 0xffffffff 0x11 eoe_errcode_messages (eoe_errorcode_string 0x11)
strings-Messaged_example = strings-Messaged 0x11
