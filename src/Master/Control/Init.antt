-- ===== src/Master/Control/Init.antt =====
-- src/ec_master.c, ec_master_init: what the operating system and the drivers give is an argument.
-- The fields of include/ec_master.h that are in no record of the model are 0 afterwards, and the
-- handles that were created are left out.
pub mod Fresh
use cherry_ecat.Prelude.{
  ℕ, ◌+◌, List, [], ◌∷◌, Option, none, some, Bool, true, false, not, ◌&&◌, ◌||◌, ltb, ◌==◌,
  if◌then◌else◌, pos, replicate, length, sub_mod, u64_mod,
}
use cherry_ecat.Datagram.{Datagram, DatagramType, DatagramState}
use cherry_ecat.Datagram.Fill.{init_allocated}
use cherry_ecat.Master.{Master, store}
use cherry_ecat.Master.Control.{Phase, Control, enter_idle}

-- The memory and the semaphore of a datagram.
pub record Memory : Type 0 where
  pub buf : Option (List ℕ)
  pub sem : Bool

-- For each device, whether the driver gives one and whether its PHY is set up; the memory of the three
-- datagrams; and which objects of the operating system can be created.
pub record Resources : Type 0 where
  pub netdevs : List (Bool × Bool)
  pub main : Memory
  pub dc_ref_sync : Memory
  pub dc_all_sync : Memory
  pub scan_lock : Bool
  pub nonperiod_sem : Bool
  pub nonperiod_thread : Bool
  pub scan_thread : Bool
  pub linkdetect_timer : Bool

-- Where the datagrams of the master are, but for that of the process data.
pub record Places : Type 0 where
  pub main_datagram : ℕ
  pub dc_ref_sync_datagram : ℕ
  pub dc_all_sync_datagram : ℕ

-- What the function returns, with what it leaves of the master, or an assertion that fails.
pub data Init : Type 0 where
  ready failed : Control → Init
  asserted : Init

-- A datagram that is all zeros.
abbrev pub zeros : Datagram
zeros = record {
  netdev_idx = 0;
  type = DatagramType.none;
  static_alloc = false;
  address = replicate 4 0;
  buf = [];
  mem_size = 0;
  data_size = 0;
  index = 0;
  working_counter = 0;
  state = DatagramState.init;
  jiffies_sent = 0;
  jiffies_received = 0;
  waiter = false;
}

-- EC_MAX_DATA_SIZE
abbrev pub max_data_size : ℕ
max_data_size = 1486

abbrev pub put_zeros : List ℕ → (ℕ → Datagram) → ℕ → Datagram
put_zeros [] cells = cells
put_zeros (p ∷ ps) cells = put_zeros ps (store cells p zeros)

-- The memset of the master, the index of the first datagram, and the two readings of the clock in
-- ec_timestamp_init.
unfoldable pub cleared : Places → Control → Control
cleared at c = record c {
  master = record (c.master) {
    cells =
        put_zeros
          (at.main_datagram ∷ c.pdo_datagram ∷ at.dc_ref_sync_datagram ∷ at.dc_all_sync_datagram
            ∷ [])
          c.master.cells;
    queue = [];
    datagram_index = 1;
    timeouts = 0;
    corrupted = 0;
    unmatched = 0;
    reads = c.master.reads + 2;
  };
  pdo_buffer = replicate (length c.pdo_buffer) 0;
  cycle_time = 0;
  shift_time = 0;
  started = false;
  scan_done = false;
  rescan_request = false;
  phase = Phase.unknown;
  nonperiod_suspend = false;
  nonperiod_runs = false;
  slave_count = 0;
  configs = [];
  areas = [];
  expected_working_counter = 0;
  actual_working_counter = 0;
  actual_pdo_size = 0;
  interval = 0;
  dc_sync_integral = pos 0;
}

-- The assertion in ec_timestamp_init: whether the clock has moved by 9 ms between the readings.
unfoldable pub clock_runs : Control → Bool
clock_runs c = not (
    ltb (sub_mod u64_mod (c.master.clock (c.master.reads + 1)) (c.master.clock c.master.reads))
      9000000)

-- The loop over the devices: none where a PHY is not set up, and whether all are there.
unfoldable pub all_devices : List (Bool × Bool) → Option Bool
all_devices [] = some true
all_devices ((false, phy) ∷ netdevs) = some false
all_devices ((true, false) ∷ netdevs) = none
all_devices ((true, true) ∷ netdevs) = all_devices netdevs

abbrev put_datagram : ℕ → Memory → ℕ → Control → Control
put_datagram p memory size c = record c {
  master = record (c.master) {
    cells = store c.master.cells p (init_allocated (c.master.cells p) memory.buf memory.sem size);
  };
}

-- The datagrams that have memory of their own.
unfoldable pub init_datagrams : Resources → Places → Control → Control
unfolding init_allocated
init_datagrams res at c = put_datagram at.dc_all_sync_datagram res.dc_all_sync 8 (
    put_datagram at.dc_ref_sync_datagram res.dc_ref_sync 8
      (put_datagram at.main_datagram res.main max_data_size c))

-- The objects of the operating system, in their order; the thread runs from its creation on.
unfoldable pub create : Resources → Control → Init
unfolding enter_idle
create res c =
    let running = record c { nonperiod_runs = true } in
    if not (res.scan_lock && (res.nonperiod_sem && res.nonperiod_thread))
    then Init.failed c
    else if not (res.scan_thread && res.linkdetect_timer)
    then Init.failed running
    else Init.ready (enter_idle running)

abbrev pub with_devices : Resources → Places → Control → Option Bool → Init
with_devices res at c none = Init.asserted
with_devices res at c (some false) = Init.failed c
with_devices res at c (some true) = create res (init_datagrams res at c)

-- ec_master_init
unfoldable pub init : Resources → Places → Control → Init
unfolding cleared clock_runs all_devices create init_datagrams
init res at c =
    if clock_runs c
    then with_devices res at (cleared at c) (all_devices res.netdevs)
    else Init.asserted
