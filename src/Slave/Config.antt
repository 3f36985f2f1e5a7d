-- ===== src/Slave/Config.antt =====
-- src/ec_slave.c, ec_slave_config: a slave is taken from INIT over PREOP and SAFEOP to OP, or to
-- BOOT, and its FMMUs, sync managers, PDO assignment and distributed clock are set on the way. The
-- numbers of the steps are for the log only. `Setup` has the fields that the function reads and
-- nothing that it calls changes.
pub mod Pages
pub mod Stages
pub mod Waits
pub mod Monitor
pub mod Reached
pub mod Requests
use cherry_ecat.Prelude.{
  ℕ, zero, suc, ◌+◌, ◌*◌, Bool, true, false, if◌then◌else◌, List, Option, write_u8, write_u16,
  write_u32,
}
use cherry_ecat.Datagram.Fill.{fpwr, zero_data}
use cherry_ecat.Domain.{Direction}
use cherry_ecat.Exchange.{M, ◌>>=◌, ◌>>◌, get, edit, queue_ext_datagram}

-- ec_sm_info_t; of pdo_assign and pdo_mapping the entries that are counted.
pub record Sm : Type 0 where
  pub physical_start_address : ℕ
  pub length : ℕ
  pub control : ℕ
  pub enable : ℕ
  pub pdo_assign : List ℕ
  pub pdo_mapping : ℕ → List ℕ
  pub logical_start_address : ℕ
  pub data_size : ℕ
  pub dir : Direction

-- ec_slave_config_t; a shift is given modulo 2 ^ 64.
pub record Config : Type 0 where
  pub dc_assign_activate : ℕ
  pub cycle_time_0 : ℕ
  pub cycle_time_1 : ℕ
  pub shift_time_0 : ℕ

pub record Setup : Type 0 where
  pub mailbox_protocols : ℕ
  pub boot_rx_mailbox_offset : ℕ
  pub boot_rx_mailbox_size : ℕ
  pub boot_tx_mailbox_offset : ℕ
  pub boot_tx_mailbox_size : ℕ
  pub enable_pdo_assign : Bool
  pub enable_pdo_configuration : Bool
  pub base_fmmu_count : ℕ
  pub base_sync_count : ℕ
  pub base_dc_supported : Bool
  pub system_time_offset : ℕ
  pub transmission_delay : ℕ
  pub sm_info : ℕ → Sm
  pub sm_count : ℕ
  pub config : Option Config

-- ec_slave_sm_config, into the bytes from `at` on
unfoldable pub sm_config : Sm → List ℕ → ℕ → List ℕ
sm_config sm buf at =
    let buf1 = write_u16 buf at sm.physical_start_address in
    let buf2 = write_u16 buf1 (at + 2) sm.length in
    let buf3 = write_u8 buf2 (at + 4) sm.control in
    let buf4 = write_u8 buf3 (at + 5) 0 in write_u16 buf4 (at + 6) sm.enable

abbrev pub dir_byte : Direction → ℕ
dir_byte Direction.input = 1
dir_byte Direction.output = 2

-- ec_slave_fmmu_config
unfoldable pub fmmu_config : Sm → List ℕ → ℕ → List ℕ
fmmu_config sm buf at =
    let buf1 = write_u32 buf at sm.logical_start_address in
    let buf2 = write_u16 buf1 (at + 4) sm.data_size in
    let buf3 = write_u8 buf2 (at + 6) 0 in
    let buf4 = write_u8 buf3 (at + 7) 7 in
    let buf5 = write_u16 buf4 (at + 8) sm.physical_start_address in
    let buf6 = write_u8 buf5 (at + 10) 0 in
    let buf7 = write_u8 buf6 (at + 11) (dir_byte sm.dir) in
    let buf8 = write_u16 buf7 (at + 12) 1 in write_u16 buf8 (at + 14) 0

-- The loops that fill one page of `size` bytes for each of `n` sync managers from `first + i` on.
unfoldable pub put_pages : (Sm → List ℕ → ℕ → List ℕ) → ℕ → (ℕ → Sm) → ℕ → ℕ → ℕ → List ℕ → List ℕ
put_pages page size sms first zero i buf = buf
put_pages page size sms first (suc n) i buf =
    put_pages page size sms first n (i + 1) (page (sms (first + i)) buf (size * i))

-- A datagram that writes `size` bytes at the register `ado`, filled in by `f`, with or without
-- ec_datagram_zero.
unfoldable pub write_area : Bool → ℕ → ℕ → ℕ → (List ℕ → List ℕ) → M (Unit {0})
write_area zeroed i ado size f = do
  w ← get
  let s = w.slaves i
  edit (λ d. fpwr d s.station_address ado size)
  edit (λ d. if zeroed then zero_data d else d)
  edit (λ d. record d { buf = f d.buf; netdev_idx = s.netdev_idx })
  queue_ext_datagram true true
