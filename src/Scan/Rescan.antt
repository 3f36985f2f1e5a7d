-- ===== src/Scan/Rescan.antt =====
-- src/ec_slave.c, ec_slaves_scanning: what is done with the slaves when the bus is scanned anew, under
-- the lock. An error of a step ends the scan; its number is for the log only, and where a step has
-- none of its own any other stands for it. `none` is a scan that reads behind an image.
use cherry_ecat.Prelude.{
  ℕ, List, [], ◌∷◌, Bool, true, false, not, Option, none, some, ◌==◌, get_elem?, get_or, test_bit,
}
use cherry_ecat.Domain.{Direction}
use cherry_ecat.Exchange.{M, Errno, ok, pure, fail, ◌>>=◌, ◌>>◌, fail_if}
use cherry_ecat.Slave.Config.{Setup, Sm}
use cherry_ecat.Slave.Config.Stages.{slave_config}
use cherry_ecat.Slave.Content.{Content, SmSetting, parse_image}
use cherry_ecat.Slave.Topology.{Node, Bus}
use cherry_ecat.Scan.{Station, stations, total, slave_of, cleared}
use cherry_ecat.Scan.Probe.{Info, identify, clear_devices}
use cherry_ecat.Scan.Image.{Identity, identity, read_image}

-- A slave that is scanned.
pub record Found : Type 0 where
  pub station : Station
  pub info : Info
  pub sii_nwords : ℕ
  pub identity : Identity
  pub content : Content

-- Before the image is parsed; the allocation of the image is the first.
abbrev pub no_content : Content
no_content = record {
  string_count = 0;
  strings = none;
  has_general = false;
  general = [];
  sm_count = 0;
  sm_info = none;
  allocs = 1;
}

abbrev pub cleared_sm : Sm
cleared_sm = record {
  physical_start_address = 0;
  length = 0;
  control = 0;
  enable = 0;
  pdo_assign = [];
  pdo_mapping = λ i. [];
  logical_start_address = 0;
  data_size = 0;
  dir = Direction.output;
}

abbrev pub sm_setting : Option SmSetting → Sm
sm_setting none = cleared_sm
sm_setting (some s) = record cleared_sm {
  physical_start_address = s.physical_start_address;
  length = s.length;
  control = s.control;
  enable = s.enable;
}

abbrev pub sm_at : Option (List SmSetting) → ℕ → Sm
sm_at none i = cleared_sm
sm_at (some ss) i = sm_setting (get_elem? ss i)

-- The slave as ec_slave_config reads it: it has no configuration of the user's yet. The details of
-- CANopen are byte 5 of the general data.
unfoldable pub setup_of : Info → Identity → Content → Setup
setup_of info id c = record {
  mailbox_protocols = id.mailbox_protocols;
  boot_rx_mailbox_offset = id.boot_rx_mailbox_offset;
  boot_rx_mailbox_size = id.boot_rx_mailbox_size;
  boot_tx_mailbox_offset = id.boot_tx_mailbox_offset;
  boot_tx_mailbox_size = id.boot_tx_mailbox_size;
  enable_pdo_assign = test_bit (get_or c.general 5 0) 2;
  enable_pdo_configuration = test_bit (get_or c.general 5 0) 3;
  base_fmmu_count = info.base_fmmu_count;
  base_sync_count = info.base_sync_count;
  base_dc_supported = info.base_dc_supported;
  system_time_offset = info.system_time_offset;
  transmission_delay = 0;
  sm_info = sm_at c.sm_info;
  sm_count = c.sm_count;
  config = none;
}

-- What follows the parsing of the image.
unfoldable pub configure :
    Station → Info → ℕ → Identity → Option (Bool × Content) → M (Option Found)
unfolding setup_of slave_config
configure s info n id none = pure none
configure s info n id (some (false, c)) = fail Errno.nomem
configure s info n id (some (true, c)) = do
  slave_config s.index (setup_of info id c)
  pure (some record { station = s; info = info; sii_nwords = n; identity = id; content = c })

-- The body of the loop over the slaves; `alloc` says which allocations of it succeed.
unfoldable pub scan_slave : ℕ → (ℕ → Bool) → Station → M (Option Found)
unfolding identify read_image identity parse_image configure
scan_slave stray alloc s = do
  info ← identify stray s
  (n, image) ← read_image (alloc 0) s.index
  configure s info n (identity image) (parse_image alloc image no_content)

abbrev pub and_rest : M (Option (List Found)) → Option Found → M (Option (List Found))
and_rest rest none = pure none
and_rest rest (some f) = rest >>= λ fs. pure (elim fs [ none ↦ none | some fs' ↦ some (f ∷ fs') ])

-- The loop over the slaves.
unfoldable pub scan_slaves : ℕ → (ℕ → ℕ → Bool) → List Station → M (Option (List Found))
unfolding scan_slave
scan_slaves stray alloc [] = pure (some [])
scan_slaves stray alloc (s ∷ ss) =
    scan_slave stray (alloc s.index) s >>= and_rest (scan_slaves stray alloc ss)

-- The array of the slaves, as ec_slave_init leaves it.
unfoldable pub put_slaves : List Station → ℕ → M (Unit {0})
unfolding slave_of
put_slaves ss count w = (ok tt, record w { slaves = slave_of ss; slave_count = count })

-- ec_master_clear_slaves; ec_slave_clear, on each of them, frees memory.
unfoldable pub clear_slaves : M (Unit {0})
clear_slaves w = (ok tt, record w { slaves = λ i. cleared; slave_count = 0 })

-- From the counting of the slaves to the end of the loop over them; `allocated` is whether there is
-- memory for the array.
unfoldable pub rescan : ℕ → Bool → (ℕ → ℕ → Bool) → List ℕ → M (Option (List Found))
unfolding put_slaves clear_devices scan_slaves
rescan stray allocated alloc counters = do
  fail_if (total counters == 0) Errno.unknown
  fail_if (not allocated) Errno.nomem
  put_slaves (stations counters 0 0) (total counters)
  clear_devices counters 0
  scan_slaves stray alloc (stations counters 0 0)

-- The nodes of the tree that ec_master_calc_dc works on; no port is linked yet.
abbrev pub node_of : Option Found → Node
node_of none = record {
  ports = λ p. record {
    loop_closed = false;
    next_slave = none;
    receive_time = 0;
    delay_to_next_dc = 0;
  };
  station_address = 0;
  base_dc_supported = false;
  base_dc_64 = false;
  transmission_delay = 0;
}
node_of (some f) = record {
  ports = λ p. record {
    loop_closed = f.info.loop_closed p;
    next_slave = none;
    receive_time = f.info.receive_time p;
    delay_to_next_dc = 0;
  };
  station_address = f.station.station_address;
  base_dc_supported = f.info.base_dc_supported;
  base_dc_64 = f.info.base_dc_64;
  transmission_delay = 0;
}

unfoldable pub bus_of : List Found → ℕ → Bus
bus_of fs count = record { nodes = λ q. node_of (get_elem? fs q); slave_count = count }
