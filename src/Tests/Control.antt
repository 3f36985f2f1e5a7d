-- ===== src/Tests/Control.antt =====
-- Runs of ec_master_start and ec_master_stop of src/ec_master.c.
use cherry_ecat.Prelude.{
  ℕ, ◌*◌, Bool, ◌≡◌, refl, true, false, List, [], ◌∷◌, some, none, inl, inr, pos, Gets, replicate,
}
use cherry_ecat.Domain.Layout.{layout, layout_slave, layout_syncs, layout_sync}
use cherry_ecat.Master.Control.{
  Phase, Control, Outcome, start, start_locked, stop, await_scan, leave_idle, exit_idle,
  start_cycle, put_image, request, ask,
}
use cherry_ecat.Master.Control.Running.{Left, Stopped, After, start-Running, stop-Stopped}
use cherry_ecat.Master.Control.Calls.{Call, run, Phased}
use cherry_ecat.Master.Control.Init.{Memory, Resources, Places, all_devices, clock_runs, init}
use cherry_ecat.Master.Control.Init.Fresh.{AllGiven, Fresh, Ready, set_cycle, init-Fresh}
use cherry_ecat.Tests.Queue.{two_queued}
use cherry_ecat.Tests.Domain.{syncs, drive, limits}
use cherry_ecat.Tests.Bus

-- A master at rest, with one slave that is configured; its cycle is 1 ms.
abbrev pub resting : Control
resting = record {
  master = two_queued;
  pdo_datagram = 5;
  pdo_buffer = replicate 12 255;
  cycle_time = 1000000;
  shift_time = 200000;
  started = false;
  scan_done = true;
  rescan_request = false;
  phase = Phase.idle;
  nonperiod_suspend = false;
  nonperiod_runs = true;
  slaves = λ i. Bus.drive;
  slave_count = 1;
  force_update = λ i. false;
  configs = some syncs ∷ [];
  areas = drive ∷ [];
  expected_working_counter = 0;
  actual_working_counter = 0;
  actual_pdo_size = 0;
  interval = 0;
  dc_sync_integral = pos 0;
  timer = none;
}

-- What a start leaves of the flag, the size of the process data and the first slave's request.
seen : Outcome → Bool × (ℕ × ℕ)
seen (Outcome.done c) = (c.started, (c.actual_pdo_size, (c.slaves 0).requested_state))
seen Outcome.asserted = (false, (0, 0))
seen Outcome.waiting = (false, (0, 1))

start_run : seen (start limits [] (some two_queued) resting) ≡ (true, (10, 8))
unfolding seen start start_locked await_scan leave_idle exit_idle layout layout_slave layout_syncs
    layout_sync start_cycle put_image request ask
start_run = refl

start-Running_example : After (Left false resting) (start limits [] (some two_queued) resting)
start-Running_example = start-Running limits [] (some two_queued) resting

-- A master in operation, whose process data is the second datagram of the queue.
abbrev working : Control
working = record resting {
  started = true;
  phase = Phase.operation;
  nonperiod_runs = false;
  timer = some 1000;
}

-- The slaves report SAFEOP, and in the next turn PREOP.
stop-Stopped_example : Gets Stopped (stop (((true, 4) ∷ []) ∷ ((true, 2) ∷ []) ∷ []) working)
stop-Stopped_example =
    stop-Stopped (((true, 4) ∷ []) ∷ ((true, 2) ∷ []) ∷ []) working refl (refl, (refl, tt))
      (inr (inr (inl (inl (inr refl)))))

abbrev calls : List Call
calls =
    Call.starts limits [] (some two_queued)
    ∷ Call.works two_queued
    ∷ Call.stops (((false, 8) ∷ []) ∷ [])
    ∷ Call.starts limits [] (some two_queued)
    ∷ []

-- One device, a clock that moves by 10 ms, and memory for the three datagrams.
abbrev memory : ℕ → Memory
memory n = record { buf = some (replicate n 170); sem = true }

abbrev resources : Resources
resources = record {
  netdevs = (true, true) ∷ [];
  main = memory 1486;
  dc_ref_sync = memory 8;
  dc_all_sync = memory 8;
  scan_lock = true;
  nonperiod_sem = true;
  nonperiod_thread = true;
  scan_thread = true;
  linkdetect_timer = true;
}

abbrev places : Places
places = record { main_datagram = 1; dc_ref_sync_datagram = 2; dc_all_sync_datagram = 3 }

abbrev before : Control
before = record resting { master = record two_queued { clock = λ n. n * 10000000 } }

resources-AllGiven : AllGiven resources (replicate 1486 170) (replicate 8 170) (replicate 8 170)
unfolding all_devices
resources-AllGiven = record {
  netdevs = refl;
  main = (refl, refl);
  dc_ref_sync = (refl, refl);
  dc_all_sync = (refl, refl);
  scan_lock = refl;
  nonperiod_sem = refl;
  nonperiod_thread = refl;
  scan_thread = refl;
  linkdetect_timer = refl;
}

init-Fresh_example :
    Ready
      (λ c.
        Fresh places (replicate 1486 170) (replicate 8 170) (replicate 8 170) c
        × After Phased (run calls (set_cycle 1000000 200000 c)))
      (init resources places before)
unfolding clock_runs
init-Fresh_example =
    init-Fresh resources places before (replicate 1486 170) (replicate 8 170) (replicate 8 170)
      1000000 200000 calls resources-AllGiven (refl, refl, refl) refl refl
