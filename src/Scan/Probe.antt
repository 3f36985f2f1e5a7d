-- ===== src/Scan/Probe.antt =====
-- src/ec_slave.c, ec_slaves_scanning: the registers of a slave that a scan reads. The array
-- `ref_time` is read behind its end, so that what is sent before it is filled does not matter;
-- `stray` is what is read there.
use cherry_ecat.Prelude.{
  ℕ, ◌+◌, ◌*◌, ◌/◌, ◌%◌, ◌^◌, List, [], ◌∷◌, Bool, true, false, if◌then◌else◌, ◌==◌, leb, read_u8,
  read_u16, read_u32, read_u64, write_u16, test_bit, sub_mod, u64_mod,
}
use cherry_ecat.Datagram.Fill.{apwr, bwr, fprd}
use cherry_ecat.Exchange.{M, pure, ◌>>=◌, ◌>>◌, get, edit, assert, queue_ext_datagram}
use cherry_ecat.Scan.{Station, poll}

-- The fields of ec_slave_t that the registers fill; a field of the ports is a function of the port.
pub record Info : Type 0 where
  pub base_type : ℕ
  pub base_revision : ℕ
  pub base_build : ℕ
  pub base_fmmu_count : ℕ
  pub base_sync_count : ℕ
  pub desc : ℕ → ℕ
  pub base_fmmu_bit_operation : Bool
  pub base_dc_supported : Bool
  pub base_dc_64 : Bool
  pub receive_time : ℕ → ℕ
  pub system_time_offset : ℕ
  pub link_up : ℕ → Bool
  pub loop_closed : ℕ → Bool
  pub signal_detected : ℕ → Bool

-- The loop that clears the station addresses and the receive times of the devices with slaves.
unfoldable pub clear_devices : List ℕ → ℕ → M (Unit {0})
unfolding poll
clear_devices [] netdev_idx = pure tt
clear_devices (n ∷ counters) netdev_idx =
    let rest = clear_devices counters (netdev_idx + 1) in
    if n == 0
    then rest
    else (poll netdev_idx (λ d. bwr d 0x10 2) >> (poll netdev_idx (λ d. bwr d 0x900 4) >> rest))

-- What the 12 bytes from register 0 on say; the other fields are 0 as memset left them.
unfoldable pub base_info : List ℕ → Info
base_info bytes = record {
  base_type = read_u8 bytes 0;
  base_revision = read_u8 bytes 1;
  base_build = read_u16 bytes 2;
  base_fmmu_count = read_u8 bytes 4;
  base_sync_count = read_u8 bytes 5;
  desc = λ i. read_u8 bytes 7 / 2 ^ (2 * i) % 4;
  base_fmmu_bit_operation = test_bit (read_u8 bytes 8) 0;
  base_dc_supported = test_bit (read_u8 bytes 8) 2;
  base_dc_64 = test_bit (read_u8 bytes 8) 3;
  receive_time = λ i. 0;
  system_time_offset = 0;
  link_up = λ i. false;
  loop_closed = λ i. false;
  signal_detected = λ i. false;
}

-- The data link status, for the four ports.
unfoldable pub link_info : ℕ → Info → Info
link_info dl_status info = record info {
  link_up = λ i. test_bit dl_status (4 + i);
  loop_closed = λ i. test_bit dl_status (8 + i * 2);
  signal_detected = λ i. test_bit dl_status (9 + i * 2);
}

-- The capabilities, the receive times and the system time of a slave with a distributed clock.
unfoldable pub read_clock : ℕ → Station → Info → M Info
unfolding poll
read_clock stray s info = do
  poll s.netdev_idx (λ d. fprd d s.station_address 0x910 (if info.base_dc_64 then 8 else 4))
  poll s.netdev_idx (λ d. fprd d s.station_address 0x900 16)
  w ← get
  poll s.netdev_idx (λ d. fprd d s.station_address 0x918 8)
  w' ← get
  pure (record info {
    receive_time = λ i. read_u32 w.datagram.buf (4 * i);
    system_time_offset = sub_mod u64_mod stray (read_u64 w'.datagram.buf 0);
  })

-- The station address is set, and the state register read.
unfoldable pub set_address : Station → M (Unit {0})
unfolding poll
set_address s = do
  edit (λ d. apwr d s.autoinc_address 0x10 2)
  edit (λ d. record d { buf = write_u16 d.buf 0 s.station_address; netdev_idx = s.netdev_idx })
  queue_ext_datagram true true
  poll s.netdev_idx (λ d. fprd d s.station_address 0x130 2)

-- From the station address to the links of the ports.
unfoldable pub identify : ℕ → Station → M Info
unfolding set_address base_info read_clock link_info
identify stray s = do
  set_address s
  poll s.netdev_idx (λ d. fprd d s.station_address 0x0 12)
  w ← get
  let info = base_info w.datagram.buf
  assert (leb info.base_fmmu_count 16)
  assert (leb info.base_sync_count 16)
  timed ← if info.base_dc_supported then read_clock stray s info else pure info
  poll s.netdev_idx (λ d. fprd d s.station_address 0x110 2)
  w' ← get
  pure (link_info (read_u16 w'.datagram.buf 0) timed)
