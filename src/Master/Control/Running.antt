-- ===== src/Master/Control/Running.antt =====
-- What ec_master_start and ec_master_stop of src/ec_master.c leave behind.
use cherry_ecat.Prelude.{
  if◌then◌else◌, ℕ, zero, suc, ◌+◌, ◌*◌, ◌/◌, ◌%◌, ◌≤◌, ◌<◌, ◌≡◌, ◌⊎◌, inl, inr, refl, sym, ap, ◌∙◌,
  subst, List, [], ◌∷◌, Option, none, some, Bool, true, false, Bool-cases, ==_iff, ◌==◌, ◌||◌, not,
  leb, length, arith, u16_mod, u32_mod, Ends, Gets,
}
use cherry_ecat.Datagram.Fill.{fill, init_static, lrw, zero_data}
use cherry_ecat.Domain.{Sync, Area}
use cherry_ecat.Domain.Layout.{Limits, Image, layout, layout_slave}
use cherry_ecat.Domain.Disjoint.{Ends->>=}
use cherry_ecat.Master.{Master, contains}
use cherry_ecat.Master.Queue.{Distinct, contains-remove}
use cherry_ecat.Master.Control.{
  Phase, Control, Rescan, Outcome, unqueue, clear, enter_idle, exit_idle, request, leaves,
  await_preop, stop_cycle, stop, await_scan, slots, leave_idle, start_cycle, laid_out, start_locked,
  locked, start, ask, put_image,
}
use cherry_ecat.Slave.State.{state_preop, state_op}

-- Every slave is asked for a state, with its error forgotten, and is to be configured again.
unfoldable pub Asked : ℕ → Control → Type 0
Asked state c =
    (j : ℕ)
    → j < c.slave_count
    → ((c.slaves j).requested_state ≡ state)
      × (((c.slaves j).alstatus_code ≡ 0) × (c.force_update j ≡ true))

-- In operation: the timer runs, the other thread does not, three is counted for each slave, and the
-- datagram has the size of the process data.
pub record Running (c : Control) : Type 0 where
  pub started : c.started ≡ true
  pub phase : c.phase ≡ Phase.operation
  pub suspended : (c.nonperiod_runs ≡ false) × (c.nonperiod_suspend ≡ false)
  pub timer : c.timer ≡ some (c.cycle_time / 1000)
  pub expected : c.expected_working_counter ≡ 3 * length c.areas % u32_mod
  pub size : (c.master.cells c.pdo_datagram).data_size ≡ c.actual_pdo_size % u16_mod
  pub asked : Asked 8 c

-- At rest: no timer, the other thread runs, the datagram of the process data is not in the queue.
pub record Stopped (c : Control) : Type 0 where
  pub started : c.started ≡ false
  pub phase : c.phase ≡ Phase.idle
  pub resumed : (c.nonperiod_runs ≡ true) × (c.nonperiod_suspend ≡ false)
  pub timer : c.timer ≡ none
  pub unlinked : contains c.pdo_datagram c.master.queue ≡ false
  pub asked : Asked 2 c

-- Nothing but the slaves changes.
pub request_eq :
    (left i state : ℕ) (c : Control)
    → request left i state c ≡ record c {
      slaves = (request left i state c).slaves;
      force_update = (request left i state c).force_update;
    }
unfolding request
request_eq zero i state c = refl
request_eq (suc left) i state c = request_eq left (i + 1) state _

-- A slave as it was asked, or as it was before.
abbrev IsAsked : ℕ → ℕ → Control → Type 0
IsAsked state j c =
    ((c.slaves j).requested_state ≡ state)
    × (((c.slaves j).alstatus_code ≡ 0) × (c.force_update j ≡ true))

abbrev IsKept : ℕ → Control → Control → Type 0
IsKept j c c' = (c'.slaves j ≡ c.slaves j) × (c'.force_update j ≡ c.force_update j)

ask-IsAsked : (i state : ℕ) (c : Control) → IsAsked state i (ask i state c)
unfolding ask
ask-IsAsked i state c = (ground arith, (ground arith, ground arith))

ask-IsKept : (i state j : ℕ) (c : Control) → j < i → IsKept j c (ask i state c)
unfolding ask
ask-IsKept i state j c h = (ground arith, ground arith)

request-IsKept : (left i state j : ℕ) (c : Control) → j < i → IsKept j c (request left i state c)
unfolding request
request-IsKept zero i state j c h = (refl, refl)
request-IsKept (suc left) i state j c h =
    let r = request-IsKept left (i + 1) state j (ask i state c) (omega arith) in
    let k = ask-IsKept i state j c h in (r.0 ∙ k.0, r.1 ∙ k.1)

request-IsAsked :
    (left i state j : ℕ) (c : Control)
    → i ≤ j
    → j < i + left
    → IsAsked state j (request left i state c)
unfolding request
request-IsAsked zero i state j c h l = absurd (omega arith)
request-IsAsked (suc left) i state j c h l = elim (Bool-cases (i == j)) [
  | inl e ↦
      let k = request-IsKept left (i + 1) state j (ask i state c) (ground arith) in
      let a : IsAsked state j (ask i state c) =
        subst (λ q. IsAsked state q (ask i state c)) ((==_iff i j).0 e) (ask-IsAsked i state c) in
      (ap (λ s. s.requested_state) k.0 ∙ a.0, (ap (λ s. s.alstatus_code) k.0 ∙ a.1.0, k.1 ∙ a.1.1))
  | inr e ↦ request-IsAsked left (i + 1) state j (ask i state c) (ground arith) (omega arith)
]

abbrev Expects : ℕ → Image → Type 0
Expects wc image = image.expected_working_counter ≡ (wc + 3 * length image.slaves) % u32_mod

Ends-any {ℓ} : {A : Type ℓ} (o : Option A) → Ends (λ a. Unit {0}) o
Ends-any none = tt
Ends-any (some a) = tt

layout-Expects :
    (l : Limits) (ss : List (Option (List Sync) × Area)) (size wc : ℕ)
    → wc < u32_mod
    → Ends (Expects wc) (layout l ss size wc)
unfolding layout
layout-Expects l [] size wc h = omega arith
layout-Expects l ((c, a) ∷ ss) size wc h =
    Ends->>= (λ r. Unit {0}) (Expects wc) (layout_slave l c a size) _
      (Ends-any (layout_slave l c a size))
      λ r u.
        Ends->>= (Expects ((wc + 3) % u32_mod)) (Expects wc) (layout l ss r.1 ((wc + 3) % u32_mod))
          _ (layout-Expects l ss r.1 ((wc + 3) % u32_mod) (omega arith)) λ image e. omega (arith, e)

unqueue-unlinks : (m : Master) (p : ℕ) → Distinct m.queue → contains p (unqueue m p).queue ≡ false
unfolding unqueue
unqueue-unlinks m p d = elim (Bool-cases (contains p m.queue)) [
  | inl e ↦ rw e (ground (arith, contains-remove p p m.queue d))
  | inr e ↦ rw e e
]

clear-unlinks : (m : Master) (p : ℕ) → Distinct m.queue → contains p (clear m p).queue ≡ false
unfolding clear
clear-unlinks m p d = elim (Bool-cases ((unqueue m p).cells p).static_alloc) [
  | inl e ↦ rw e (unqueue-unlinks m p d)
  | inr e ↦ rw e (unqueue-unlinks m p d)
]

stop_cycle-Stopped :
    (c : Control)
    → Distinct c.master.queue
    → c.started ≡ false
    → Stopped (stop_cycle (request c.slave_count 0 state_preop c))
unfolding stop_cycle enter_idle Asked
stop_cycle-Stopped c d s =
    let e = request_eq c.slave_count 0 state_preop c in
    record {
      started = ap (λ x. x.started) e ∙ s;
      phase = refl;
      resumed = (refl, refl);
      timer = refl;
      unlinked =
          ap (λ x. contains x.pdo_datagram (clear x.master x.pdo_datagram).queue) e
          ∙ clear-unlinks c.master c.pdo_datagram d;
      asked = λ j h.
          request-IsAsked c.slave_count 0 state_preop j c (omega arith)
            (subst (λ n. j < 0 + n) (ap (λ x. x.slave_count) e) (omega arith));
    }

put_image_size :
    (image : Image) (c : Control)
    → ((put_image image c).master.cells c.pdo_datagram).data_size ≡ image.actual_pdo_size % u16_mod
unfolding put_image init_static lrw zero_data fill
put_image_size image c = ground arith

start_cycle-Running :
    (image : Image) (c : Control)
    → Expects 0 image
    → (c.nonperiod_runs ≡ false) × (c.nonperiod_suspend ≡ false)
    → c.phase ≡ Phase.operation
    → Running (start_cycle image c)
unfolding start_cycle Asked put_image
start_cycle-Running image c x s p =
    let c1 = put_image image c in
    let e = request_eq c.slave_count 0 state_op c1 in
    let expected : image.expected_working_counter ≡ 3 * length image.slaves % u32_mod =
      omega (arith, x) in
    record {
      started = refl;
      phase = ap (λ y. y.phase) e ∙ p;
      suspended = (ap (λ y. y.nonperiod_runs) e ∙ s.0, ap (λ y. y.nonperiod_suspend) e ∙ s.1);
      timer = ap (λ y. y.timer) e ∙ ap (λ y. some (y.cycle_time / 1000)) (sym e);
      expected =
          ap (λ y. y.expected_working_counter) e
          ∙ (expected ∙ ap (λ y. 3 * length y.areas % u32_mod) (sym e));
      size =
          ap (λ y. (y.master.cells y.pdo_datagram).data_size) e
          ∙ (put_image_size image c ∙ ap (λ y. y.actual_pdo_size % u16_mod) (sym e));
      asked = λ j h.
          request-IsAsked c.slave_count 0 state_op j c1 (omega arith)
            (subst (λ n. j < 0 + n) (ap (λ y. y.slave_count) e) (omega arith));
    }

-- The outcome of a call, where it ends.
abbrev pub After : (Control → Type 0) → Outcome → Type 0
After P (Outcome.done c) = P c
After P Outcome.asserted = Unit
After P Outcome.waiting = Unit

After-guard :
    (P : Control → Type 0) (b : Bool) (o : Outcome)
    → After P o
    → After P (if b then Outcome.asserted else o)
After-guard P true o h = tt
After-guard P false o h = h

laid_out-Running :
    (c : Control) (o : Option Image)
    → Ends (Expects 0) o
    → (c.nonperiod_runs ≡ false) × (c.nonperiod_suspend ≡ false)
    → c.phase ≡ Phase.operation
    → After Running (laid_out c o)
laid_out-Running c none x s p = tt
laid_out-Running c (some image) x s p = start_cycle-Running image c x s p

locked-Running :
    (l : Limits) (m : Option Master) (o : Option Control) → After Running (locked l m o)
unfolding start_locked leave_idle exit_idle
locked-Running l m none = tt
locked-Running l none (some c) = tt
locked-Running l (some m) (some c) =
    laid_out-Running (leave_idle c m) _
      (layout-Expects l (slots c.configs c.areas) 0 0 (omega arith)) (refl, refl) refl

-- What ec_master_start leaves of a master that was started, or was not.
abbrev pub Left : Bool → Control → Control → Type 0
Left true c c' = c' ≡ c
Left false c c' = Running c'

started-or :
    (s : Bool) (c : Control) (o : Outcome)
    → After Running o
    → After (Left s c) (if s then Outcome.done c else o)
started-or true c o h = refl
started-or false c o h = h

-- Where ec_master_start ends for a master that is not started, whatever the other threads did while
-- it slept, the master is started and in operation: the timer runs with the cycle time, the thread
-- for the other datagrams is suspended, the working counter that is expected is 3 for each slave, the
-- datagram of the process data has the size of the layout (modulo 2^16), and every slave is asked
-- for OP, its error forgotten, and is to be configured again. A started master is left as it is.
pub start-Running :
    (l : Limits) (later : List Rescan) (last_send : Option Master) (c : Control)
    → After (Left c.started c) (start l later last_send c)
unfolding start
start-Running l later last_send c =
    After-guard (Left c.started c)
      (not (leb 40000 c.cycle_time) || not (leb c.shift_time c.cycle_time)) _
      (started-or c.started c _ (locked-Running l last_send (await_scan c later)))

-- Some device of a look has no link, or reports PREOP.
abbrev pub Free : List (Bool × ℕ) → Type 0
Free [] = ⊥
Free ((link_state, state) ∷ devs) = ((link_state ≡ false) ⊎ (state % 16 ≡ 2)) ⊎ Free devs

abbrev pub Seen : List (List (Bool × ℕ)) → Type 0
Seen [] = ⊥
Seen (look ∷ looks) = Free look ⊎ Seen looks

leaves-Free : (look : List (Bool × ℕ)) → Free look → leaves look ≡ true
unfolding leaves
leaves-Free [] f = absurd f
leaves-Free ((true, s) ∷ devs) (inl (inl e)) = ground arith
leaves-Free ((false, s) ∷ devs) f = refl
leaves-Free ((true, s) ∷ devs) (inl (inr e)) = ground arith
leaves-Free ((true, s) ∷ devs) (inr f) = ground (arith, leaves-Free devs f)

await_preop-Seen : (looks : List (List (Bool × ℕ))) → Seen looks → await_preop looks ≡ true
unfolding await_preop
await_preop-Seen [] s = absurd s
await_preop-Seen (look ∷ looks) (inl f) = ground (arith, leaves-Free look f)
await_preop-Seen (look ∷ looks) (inr s) = ground (arith, await_preop-Seen looks s)

-- ec_master_stop ends for a started master when a rescan is requested, or when it sees a device
-- without a link or one whose slaves report PREOP; the timer is then stopped, the datagram of the
-- process data is out of the queue, if that had no datagram twice, the master is idle with the
-- thread for the other datagrams resumed, and every slave is asked for PREOP, its error forgotten,
-- and is to be configured again.
pub stop-Stopped :
    (looks : List (List (Bool × ℕ))) (c : Control)
    → c.started ≡ true
    → Distinct c.master.queue
    → (c.rescan_request ≡ true) ⊎ Seen looks
    → Gets Stopped (stop looks c)
unfolding stop
stop-Stopped looks c s d w =
    let g = stop_cycle-Stopped (record c { started = false }) d refl in
    let e : (c.rescan_request || await_preop looks) ≡ true = elim w [
      | inl r ↦ ground arith
      | inr f ↦ ground (arith, await_preop-Seen looks f)
    ] in
    rw (s, e) g
