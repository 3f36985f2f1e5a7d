-- ===== src/Master/Period.antt =====
-- src/ec_master.c, the periodic process: ec_master_dc_sync_with_pi and ec_master_period_process. The
-- reference clock is a slave's transmission delay and the width of its system time; a datagram is
-- its pointer. The measurements that `perf_enable` turns on are left out.
pub mod Steering
pub mod Queued
use cherry_ecat.Prelude.{
  ℕ, ◌+◌, ◌-◌, ◌*◌, ◌/◌, ◌%◌, List, [], ◌∷◌, ◌++◌, Option, none, some, Bool, true, false, ltb, ◌==◌,
  if◌then◌else◌, sub_mod, u64_mod, u32_mod, read_u64, write_u32, ℤ, pos, negsuc, pos_part, neg_part,
  sub_ℕ, quot, to_u32, to_i32,
}
use cherry_ecat.Datagram.{Datagram, DatagramState}
use cherry_ecat.Datagram.Fill.{zero_data}
use cherry_ecat.Master.{Master, store, queue_datagram, jiffies}
use cherry_ecat.Master.Cycle.{send}

-- What ec_master_period_process keeps of ec_master_t; `shift_time` is given modulo 2 ^ 64, and the
-- timer is the list of the periods that it was set to, newest last.
pub record Period : Type 0 where
  pub master : Master
  pub in_operation : Bool
  pub dc_ref_clock : Option (ℕ × Bool)
  pub dc_sync_with_dc_ref_enable : Bool
  pub pdo_datagram : ℕ
  pub dc_ref_sync_datagram : ℕ
  pub dc_all_sync_datagram : ℕ
  pub cycle_time : ℕ
  pub shift_time : ℕ
  pub dc_sync_integral : ℤ
  pub timer : List ℕ
  pub last_start_time : ℕ
  pub interval : ℕ

-- `delta` of ec_master_dc_sync_with_pi: how far the reference time is from the nearest multiple of
-- the cycle time.
unfoldable pub centre : ℕ → ℕ → ℤ
unfolding sub_ℕ
centre delta cycle_time = if ltb (cycle_time / 2) delta then sub_ℕ delta cycle_time else pos delta

unfoldable pub phase : ℕ → ℕ → ℕ → ℤ
unfolding centre
phase dc_ref_time shift_time cycle_time =
    centre (sub_mod u64_mod dc_ref_time shift_time % cycle_time) cycle_time

-- `dc_sync_integral` after a cycle with the phase `delta`; the field is an int64_t, which a count of
-- cycles does not leave.
unfoldable pub integrate : ℤ → ℤ → ℤ
unfolding sub_ℕ
integrate delta integral =
    let up = if ltb 0 (pos_part delta) then 1 else 0 in
    let down = if ltb 0 (neg_part delta) then 1 else 0 in
    sub_ℕ (pos_part integral + up) (neg_part integral + down)

-- `*offsettime`, from the phase and the new integral.
unfoldable pub offset_time : ℤ → ℤ → ℤ
unfolding sub_ℕ quot to_i32
offset_time delta integral =
    let a = quot delta 100 in
    let b = quot integral 20 in to_i32 (sub_ℕ (neg_part a + neg_part b) (pos_part a + pos_part b))

-- ec_master_dc_sync_with_pi, and the timer's new period.
unfoldable pub steer : Period → ℕ → Period
unfolding phase integrate offset_time quot to_u32 sub_ℕ
steer p dc_ref_time =
    let delta = phase dc_ref_time p.shift_time p.cycle_time in
    let integral = integrate delta p.dc_sync_integral in
    let us = quot (offset_time delta integral) 1000 in
    record p {
      dc_sync_integral = integral;
      timer = p.timer ++ to_u32 (sub_ℕ (p.cycle_time / 1000 + pos_part us) (neg_part us)) ∷ [];
    }

abbrev pub is_received : DatagramState → Bool
is_received DatagramState.received = true
is_received _ = false

-- The master's time is written into the datagram for the reference clock; its upper half is taken
-- from a second reading.
unfoldable pub write_time : Master → ℕ → Bool → Master
unfolding jiffies
write_time m d is_64 =
    let (low, m1) = jiffies m in
    let c1 = record (m1.cells d) { buf = write_u32 (m1.cells d).buf 0 (low % u32_mod) } in
    let m2 = record m1 { cells = store m1.cells d c1 } in
    let (high, m3) = jiffies m2 in
    let c2 = record c1 { buf = write_u32 c1.buf 4 (high / u32_mod) } in
    if is_64 then record m3 { cells = store m3.cells d c2 } else m2

-- What ec_master_period_process does first with the reference clock.
unfoldable pub sync_clock : Period → ℕ × Bool → Period
unfolding steer write_time queue_datagram
sync_clock p (delay, is_64) =
    let all = p.master.cells p.dc_all_sync_datagram in
    let m =
      queue_datagram (write_time p.master p.dc_ref_sync_datagram is_64) p.dc_ref_sync_datagram in
    if p.dc_sync_with_dc_ref_enable
    then if is_received all.state then steer p (sub_mod u64_mod (read_u64 all.buf 0) delay) else p
    else record p { master = m }

-- ec_datagram_zero of the datagram at `d`
abbrev pub clear : Master → ℕ → Master
clear m d = record m { cells = store m.cells d (zero_data (m.cells d)) }

-- Both parts with the reference clock.
unfoldable pub queue_clock : Period → Option (ℕ × Bool) → Period
unfolding sync_clock queue_datagram
queue_clock p none = p
queue_clock p (some ref) =
    let p1 = sync_clock p ref in
    let d = p1.dc_all_sync_datagram in record p1 { master = queue_datagram (clear p1.master d) d }

-- The end of the process, after ec_master_send.
abbrev pub close : Period → ℕ → Option Master → Option Period
close p start_time none = none
close p start_time (some m) = some (record p {
  master = (jiffies m).1;
  last_start_time = start_time;
  interval = (p.interval + 1) % u64_mod;
})

-- ec_master_period_process in the operation phase
unfoldable pub operate : List Bool → Period → Option Period
unfolding queue_clock queue_datagram send jiffies
operate links p =
    let (start_time, m) = jiffies p.master in
    let p1 = queue_clock (record p { master = m }) p.dc_ref_clock in
    close p1 start_time (send links (queue_datagram p1.master p1.pdo_datagram))

-- ec_master_period_process
unfoldable pub period_process : List Bool → Period → Option Period
unfolding operate
period_process links p = if p.in_operation then operate links p else some p
