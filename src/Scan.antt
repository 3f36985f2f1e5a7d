-- ===== src/Scan.antt =====
-- src/ec_slave.c, ec_slaves_scanning: the slaves on the bus are counted, given addresses, identified,
-- read and configured. Its parts are in the child modules; this one has the addresses of ec_slave_init
-- and the datagrams to one slave or device.
pub mod Addresses
pub mod Probe
pub mod Image
pub mod Sized
pub mod Rescan
pub mod Finds
pub mod Whole
use cherry_ecat.Prelude.{ℕ, zero, suc, ◌+◌, ◌-◌, ◌%◌, List, [], ◌∷◌, ◌++◌, true, u16_mod}
use cherry_ecat.Datagram.{Datagram}
use cherry_ecat.Datagram.Fill.{zero_data}
use cherry_ecat.Exchange.{M, ◌>>=◌, ◌>>◌, edit, queue_ext_datagram}
use cherry_ecat.Slave.{Slave}
use cherry_ecat.Slave.State.{state_preop}

-- The arguments of ec_slave_init.
pub record Station : Type 0 where
  pub index : ℕ
  pub netdev_idx : ℕ
  pub autoinc_address : ℕ
  pub station_address : ℕ

-- `(int16_t)autoinc_address * (-1)` as a uint16_t
abbrev pub negated : ℕ → ℕ
negated a = (u16_mod - a % u16_mod) % u16_mod

abbrev pub station : ℕ → ℕ → ℕ → Station
station index netdev_idx autoinc = record {
  index = index;
  netdev_idx = netdev_idx;
  autoinc_address = negated autoinc;
  station_address = (index + 1001) % u16_mod;
}

-- The loop over the `n` slaves of one device.
unfoldable pub device_stations : ℕ → ℕ → ℕ → ℕ → List Station
device_stations zero netdev_idx autoinc index = []
device_stations (suc n) netdev_idx autoinc index =
    station index netdev_idx autoinc ∷ device_stations n netdev_idx (autoinc + 1) (index + 1)

-- The loop over the devices, with their working counters.
unfoldable pub stations : List ℕ → ℕ → ℕ → List Station
unfolding device_stations
stations [] netdev_idx index = []
stations (n ∷ counters) netdev_idx index =
    device_stations n netdev_idx 0 index ++ stations counters (netdev_idx + 1) (index + n)

-- `count += slaves_working_counter[i]`
abbrev pub total : List ℕ → ℕ
total [] = 0
total (n ∷ counters) = n + total counters

-- ec_slave_init, of a slave that was cleared.
unfoldable pub slave_init : Station → Slave
slave_init s = record {
  index = s.index;
  netdev_idx = s.netdev_idx;
  station_address = s.station_address;
  requested_state = state_preop;
  current_state = 0;
  alstatus_code = 0;
  configured_rx_mailbox_offset = 0;
  configured_rx_mailbox_size = 0;
  configured_tx_mailbox_offset = 0;
  configured_tx_mailbox_size = 0;
}

-- A slave after memset.
abbrev pub cleared : Slave
cleared = record {
  index = 0;
  netdev_idx = 0;
  station_address = 0;
  requested_state = 0;
  current_state = 0;
  alstatus_code = 0;
  configured_rx_mailbox_offset = 0;
  configured_rx_mailbox_size = 0;
  configured_tx_mailbox_offset = 0;
  configured_tx_mailbox_size = 0;
}

-- The slave at a position of the array.
unfoldable pub slave_of : List Station → ℕ → Slave
unfolding slave_init
slave_of [] i = cleared
slave_of (s ∷ ss) zero = slave_init s
slave_of (s ∷ ss) (suc i) = slave_of ss i

-- A zeroed datagram to a device, and the wait for its answer.
unfoldable pub poll : ℕ → (Datagram → Datagram) → M (Unit {0})
poll netdev_idx f = do
  edit (λ d. record (zero_data (f d)) { netdev_idx = netdev_idx })
  queue_ext_datagram true true
