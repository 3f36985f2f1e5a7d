-- ===== src/Master/Control.antt =====
-- src/ec_master.c, ec_master_start and ec_master_stop, which take the master from its idle phase
-- into operation and back, ec_master_enter_idle, ec_master_exit_idle, and of src/ec_datagram.c
-- ec_datagram_unqueue and ec_datagram_clear. The mutex `scan_lock` is free when it is taken. What the
-- other threads do while a caller sleeps is an argument: `later` is what the scan thread
-- leaves at each further test of scan_done, `last_send` the queue after the last turn of the thread
-- that ec_master_start waits for, and a look is the links and states that ec_master_stop tests in
-- one turn; without any more of them the caller sleeps for ever.
pub mod Running
pub mod Calls
pub mod Init
use cherry_ecat.Prelude.{
  ℕ, zero, suc, ◌+◌, ◌/◌, ◌%◌, List, [], ◌∷◌, Option, none, some, Bool, true, false, not, ◌||◌, leb,
  ◌==◌, if◌then◌else◌, ℤ, pos,
}
use cherry_ecat.Datagram.Fill.{init_static, lrw, zero_data}
use cherry_ecat.Domain.{Sync, Area}
use cherry_ecat.Domain.Layout.{Limits, Image, layout}
use cherry_ecat.Master.{Master, contains, remove, store}
use cherry_ecat.Slave.{Slave}
use cherry_ecat.Slave.State.{state_preop, state_op}

-- ec_master_phase_t
pub data Phase : Type 0 where
  unknown idle operation : Phase

-- The fields of ec_master_t that the functions use. `configs` and `areas` are the slaves'
-- configurations and process data, `timer` the period of ec_htimer in microseconds while it runs,
-- `nonperiod_runs` tells whether the thread is resumed; shift_time is given modulo 2 ^ 32.
pub record Control : Type 0 where
  pub master : Master
  pub pdo_datagram : ℕ
  pub pdo_buffer : List ℕ
  pub cycle_time : ℕ
  pub shift_time : ℕ
  pub started : Bool
  pub scan_done : Bool
  pub rescan_request : Bool
  pub phase : Phase
  pub nonperiod_suspend : Bool
  pub nonperiod_runs : Bool
  pub slaves : ℕ → Slave
  pub slave_count : ℕ
  pub force_update : ℕ → Bool
  pub configs : List (Option (List Sync))
  pub areas : List Area
  pub expected_working_counter : ℕ
  pub actual_working_counter : ℕ
  pub actual_pdo_size : ℕ
  pub interval : ℕ
  pub dc_sync_integral : ℤ
  pub timer : Option ℕ

-- ec_datagram_unqueue
unfoldable pub unqueue : Master → ℕ → Master
unqueue m p = if contains p m.queue then record m { queue = remove p m.queue } else m

-- ec_datagram_clear: memory of its own is freed.
unfoldable pub clear : Master → ℕ → Master
unfolding unqueue
clear m p =
    let m' = unqueue m p in
    if (m'.cells p).static_alloc
    then m'
    else record m' { cells = store m'.cells p (record (m'.cells p) { buf = [] }) }

-- ec_master_enter_idle
unfoldable pub enter_idle : Control → Control
enter_idle c = record c { phase = Phase.idle; nonperiod_suspend = false; nonperiod_runs = true }

-- ec_master_exit_idle
unfoldable pub exit_idle : Control → Control
exit_idle c = record c { nonperiod_suspend = false; nonperiod_runs = false }

-- What a turn does of the loop that asks every slave for a state.
unfoldable pub ask : ℕ → ℕ → Control → Control
ask i state c = record c {
  slaves = λ j.
      if i == j
      then record (c.slaves j) { requested_state = state; alstatus_code = 0 }
      else c.slaves j;
  force_update = λ j. if i == j then true else c.force_update j;
}

-- The loop, over the `left` slaves from `i` on.
unfoldable pub request : ℕ → ℕ → ℕ → Control → Control
unfolding ask
request zero i state c = c
request (suc left) i state c = request left (i + 1) state (ask i state c)

-- The loop over the devices in ec_master_stop: whether one of them has no link, or reports PREOP.
unfoldable pub leaves : List (Bool × ℕ) → Bool
leaves [] = false
leaves ((link_state, state) ∷ devs) = not link_state || (state % 16 == state_preop || leaves devs)

-- `while (1)` in ec_master_stop: whether it is left.
unfoldable pub await_preop : List (List (Bool × ℕ)) → Bool
unfolding leaves
await_preop [] = false
await_preop (look ∷ looks) = leaves look || await_preop looks

-- From the label `out` on.
unfoldable pub stop_cycle : Control → Control
unfolding clear enter_idle
stop_cycle c = enter_idle (record c { timer = none; master = clear c.master c.pdo_datagram })

-- ec_master_stop: none while it sleeps.
unfoldable pub stop : List (List (Bool × ℕ)) → Control → Option Control
unfolding request await_preop stop_cycle
stop looks c =
    let c' = request c.slave_count 0 state_preop (record c { started = false }) in
    if not c.started
    then some c
    else if c.rescan_request || await_preop looks
    then some (stop_cycle c')
    else none

-- ec_master_start ends, stops at an assertion, or sleeps for ever.
pub data Outcome : Type 0 where
  done : Control → Outcome
  asserted waiting : Outcome

-- What a scan of the bus replaces.
pub record Rescan : Type 0 where
  pub scan_done : Bool
  pub slaves : ℕ → Slave
  pub slave_count : ℕ
  pub force_update : ℕ → Bool
  pub configs : List (Option (List Sync))
  pub areas : List Area

abbrev pub scanned : Rescan → Control → Control
scanned r c = record c {
  scan_done = r.scan_done;
  slaves = r.slaves;
  slave_count = r.slave_count;
  force_update = r.force_update;
  configs = r.configs;
  areas = r.areas;
}

-- `while (!master->scan_done)`
unfoldable pub await_scan : Control → List Rescan → Option Control
await_scan c [] = if c.scan_done then some c else none
await_scan c (r ∷ later) =
    let rest = await_scan (scanned r c) later in if c.scan_done then some c else rest

abbrev pub slots : List (Option (List Sync)) → List Area → List (Option (List Sync) × Area)
slots [] areas = []
slots (s ∷ configs) [] = []
slots (s ∷ configs) (a ∷ areas) = (s, a) ∷ slots configs areas

-- The assignments behind the lock, and what the thread leaves when it is suspended.
unfoldable pub leave_idle : Control → Master → Control
unfolding exit_idle
leave_idle c m = exit_idle (record c {
  actual_working_counter = 0;
  expected_working_counter = 0;
  actual_pdo_size = 0;
  phase = Phase.operation;
  nonperiod_suspend = true;
  interval = 0;
  dc_sync_integral = pos 0;
  master = m;
})

-- The layout, the datagram of the process data, and the timer.
unfoldable pub put_image : Image → Control → Control
unfolding init_static lrw zero_data
put_image image c =
    let size = image.actual_pdo_size in
    let d =
      zero_data (lrw (init_static (c.master.cells c.pdo_datagram) c.pdo_buffer size) 0 size) in
    record c {
      master = record (c.master) { cells = store c.master.cells c.pdo_datagram d };
      areas = image.slaves;
      actual_pdo_size = size;
      expected_working_counter = image.expected_working_counter;
      timer = some (c.cycle_time / 1000);
    }

-- What follows the layout.
unfoldable pub start_cycle : Image → Control → Control
unfolding put_image request
start_cycle image c = record (request c.slave_count 0 state_op (put_image image c)) {
  started = true;
}

-- The layout, whose assertions may fail.
abbrev pub laid_out : Control → Option Image → Outcome
laid_out c none = Outcome.asserted
laid_out c (some image) = Outcome.done (start_cycle image c)

-- From the lock on.
unfoldable pub start_locked : Limits → Option Master → Control → Outcome
unfolding leave_idle layout start_cycle
start_locked l none c = Outcome.waiting
start_locked l (some m) c =
    let c' = leave_idle c m in laid_out c' (layout l (slots c'.configs c'.areas) 0 0)

abbrev pub locked : Limits → Option Master → Option Control → Outcome
locked l last_send none = Outcome.waiting
locked l last_send (some c) = start_locked l last_send c

-- ec_master_start
unfoldable pub start : Limits → List Rescan → Option Master → Control → Outcome
unfolding await_scan start_locked
start l later last_send c =
    if not (leb 40000 c.cycle_time) || not (leb c.shift_time c.cycle_time)
    then Outcome.asserted
    else if c.started
    then Outcome.done c
    else locked l last_send (await_scan c later)
