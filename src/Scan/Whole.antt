-- ===== src/Scan/Whole.antt =====
-- src/ec_slave.c, ec_slaves_scanning from its beginning to its end. A device has the state of its
-- driver's link and what the master keeps of it; the links do not change meanwhile. The result `none`
-- stands for no return: the parser has read behind the image, from where the model does not go on.
pub mod Ends
pub mod Answered
use cherry_ecat.Prelude.{
  ℕ, zero, suc, ◌+◌, List, [], ◌∷◌, map, Bool, true, false, not, Option, none, some, ◌==◌, ◌&&◌,
  ◌||◌, if◌then◌else◌, get_or, get_elem?, set, length, read_u8,
}
use cherry_ecat.Datagram.Fill.{brd}
use cherry_ecat.Exchange.{M, Io, Out, ok, asserted, blocked, pure, ◌>>=◌, ◌>>◌, get}
use cherry_ecat.Master.Control.{Control, stop}
use cherry_ecat.Slave.Config.{Setup}
use cherry_ecat.Slave.Config.Monitor.{attempt, scan_slaves_state}
use cherry_ecat.Slave.Delays.{Clocks, DcOutcome, calc_dc}
use cherry_ecat.Scan.{poll}
use cherry_ecat.Scan.Rescan.{Found, setup_of, clear_slaves, rescan, bus_of}

pub record Device : Type 0 where
  pub up : Bool
  pub link_state : Bool
  pub working_counter : ℕ
  pub state : ℕ

-- What the scan keeps of ec_master_t; the slaves are those of Io.
pub record Scan : Type 0 where
  pub control : Control
  pub devices : List Device
  pub clocks : Clocks
  pub setups : ℕ → Setup

-- What ec_master_stop tests of the devices.
abbrev pub look : List Device → List (Bool × ℕ)
look ds = map (λ d. (d.up, d.state)) ds

-- The call of ec_master_stop; where it would sleep, nothing wakes it.
abbrev pub on_stop : Scan → Io → Option Control → Out Scan × Io
on_stop s w none = (blocked, w)
on_stop s w (some c) = (ok (record s { control = c }), record w { slaves = c.slaves })

unfoldable pub stop_all : Scan → M Scan
unfolding stop
stop_all s w = on_stop s w (
    stop (look s.devices ∷ [])
      (record (s.control) { slaves = w.slaves; slave_count = w.slave_count }))

abbrev pub forget : Device → Device
forget d = record d { working_counter = 0; state = 0 }

-- A device whose link went down: the slaves of all devices are forgotten.
unfoldable pub link_down : Scan → M Scan
unfolding stop_all clear_slaves
link_down s = do
  s' ← stop_all s
  clear_slaves
  pure (record s' {
    control = record (s'.control) { scan_done = false };
    devices = map forget s'.devices;
  })

abbrev pub no_device : Device
no_device = record { up = false; link_state = false; working_counter = 0; state = 0 }

abbrev pub note_link : ℕ → Scan → Scan
note_link i s =
    let d = get_or s.devices i no_device in
    record s { devices = set s.devices i (record d { link_state = d.up }) }

-- The loop over the links, of `left` devices from `i` on.
unfoldable pub check_links : ℕ → ℕ → Scan → M Scan
unfolding link_down
check_links zero i s = pure s
check_links (suc left) i s = do
  let d = get_or s.devices i no_device
  s' ← if d.link_state && not d.up then link_down s else pure s
  check_links left (i + 1) (note_link i s')

-- What an answer with a working counter and a state says of a device, and whether to scan anew.
abbrev pub note_answer : ℕ → ℕ → ℕ → Scan → Scan
note_answer i counter state s =
    let d = get_or s.devices i no_device in
    record s {
      devices =
          set s.devices i
            (record d { working_counter = counter; state = if counter == 0 then 0 else state });
      control = record (s.control) {
        rescan_request = s.control.rescan_request || not (counter == d.working_counter);
      };
    }

-- The loop that counts the slaves of each device.
unfoldable pub count_slaves : ℕ → ℕ → Scan → M Scan
unfolding poll
count_slaves zero i s = pure s
count_slaves (suc left) i s = do
  poll i (λ d. brd d 0x130 2)
  w ← get
  count_slaves left (i + 1) (note_answer i w.datagram.working_counter (read_u8 w.datagram.buf 0) s)

-- The setups of the slaves that are found.
abbrev pub setup_at : Clocks → ℕ → Option Found → Setup → Setup
setup_at clocks q none old = old
setup_at clocks q (some f) old = record (setup_of f.info f.identity f.content) {
  transmission_delay = (clocks.bus.nodes q).transmission_delay;
}

-- ec_master_calc_dc; more fuel than there are slaves is not needed.
abbrev pub on_clocks : Scan → List Found → DcOutcome → M (Option Scan)
on_clocks s fs (DcOutcome.clocks c) w = (
  ok (some (record s { clocks = c; setups = λ q. setup_at c q (get_elem? fs q) (s.setups q) })),
  w,
)
on_clocks s fs DcOutcome.asserted w = (asserted, w)
on_clocks s fs DcOutcome.endless w = (blocked, w)

abbrev pub done_scan : Scan → Scan
done_scan s = record s { control = record (s.control) { scan_done = true } }

-- From the end of the loop over the slaves on; the outer `none` is an error of a step, the inner one a
-- read behind the image. The slaves found are all slaves of the master.
unfoldable pub finish : Scan → Option (Option (List Found)) → M (Option Scan)
unfolding calc_dc bus_of
finish s none = pure (some s)
finish s (some none) = pure none
finish s (some (some fs)) =
    on_clocks (done_scan s) fs
      (calc_dc (length fs) (record (s.clocks) { bus = bus_of fs (length fs) }))

-- When the scan begins; the slaves that are to come are cleared.
abbrev pub begun_scan : Scan → Scan
begun_scan s = record s {
  control = record (s.control) {
    rescan_request = false;
    scan_done = false;
    force_update = λ i. false;
  };
}

abbrev pub counters : Scan → List ℕ
counters s = map (λ d. d.working_counter) s.devices

-- The scan under the lock.
unfoldable pub scan_anew : ℕ → Bool → (ℕ → ℕ → Bool) → Scan → M (Option Scan)
unfolding stop_all clear_slaves rescan finish
scan_anew stray allocated alloc s = do
  s1 ← stop_all s
  clear_slaves
  fs ← attempt (rescan stray allocated alloc (counters s1))
  finish (begun_scan s1) fs

-- The states of the slaves, once there is a scan. `none` is passed on.
unfoldable pub watch : Option Scan → M (Option Scan)
unfolding scan_slaves_state
watch none = pure none
watch (some s) = do
  w ← get
  if not (w.slave_count == 0) && s.control.scan_done
      then (scan_slaves_state w.slave_count 0 s.setups s.control.force_update >>= λ f.
          pure (some (record s { control = record (s.control) { force_update = f } })))
      else pure (some s)

-- ec_slaves_scanning
unfoldable pub slaves_scanning : ℕ → Bool → (ℕ → ℕ → Bool) → Scan → M (Option Scan)
unfolding check_links count_slaves scan_anew watch
slaves_scanning stray allocated alloc s = do
  s1 ← check_links (length s.devices) 0 s
  s2 ← count_slaves (length s1.devices) 0 s1
  scanned ← if s2.control.rescan_request then scan_anew stray allocated alloc s2 else pure (some s2)
  watch scanned
