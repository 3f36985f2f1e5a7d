-- ===== src/Master/Control/Calls.antt =====
-- Sequences of calls of ec_master_start and ec_master_stop of src/ec_master.c.
use cherry_ecat.Prelude.{
  ◌/◌, ◌≡◌, ◌⊎◌, inl, inr, refl, ap, ◌∙◌, sym, subst, List, [], ◌∷◌, Option, none, some, Bool, true,
  false, ℕ, if◌then◌else◌, ◌||◌, not,
}
use cherry_ecat.Domain.Layout.{Limits}
use cherry_ecat.Master.{Master}
use cherry_ecat.Master.Control.{
  Phase, Control, Rescan, Outcome, request, stop_cycle, enter_idle, stop, start, await_preop,
}
use cherry_ecat.Master.Control.Running.{Left, After, start-Running, request_eq}
use cherry_ecat.Slave.State.{state_preop}

-- A call of the application, or what the other threads do to the datagrams between two calls.
pub data Call : Type 0 where
  starts : Limits → List Rescan → Option Master → Call
  stops : List (List (Bool × ℕ)) → Call
  works : Master → Call

abbrev pub ended : Option Control → Outcome
ended none = Outcome.waiting
ended (some c) = Outcome.done c

unfoldable pub call : Call → Control → Outcome
unfolding start stop
call (Call.starts l later last_send) c = start l later last_send c
call (Call.stops looks) c = ended (stop looks c)
call (Call.works m) c = Outcome.done (record c { master = m })

abbrev pub and_then : Outcome → (Control → Outcome) → Outcome
and_then (Outcome.done c) f = f c
and_then Outcome.asserted f = Outcome.asserted
and_then Outcome.waiting f = Outcome.waiting

unfoldable pub run : List Call → Control → Outcome
unfolding call
run [] c = Outcome.done c
run (k ∷ ks) c = and_then (call k c) (run ks)

abbrev pub InOperation : Control → Type 0
InOperation c =
    (c.started ≡ true)
    × ((c.phase ≡ Phase.operation)
        × ((c.nonperiod_runs ≡ false) × (c.timer ≡ some (c.cycle_time / 1000))))

abbrev pub AtRest : Control → Type 0
AtRest c =
    (c.started ≡ false) × ((c.phase ≡ Phase.idle) × ((c.nonperiod_runs ≡ true) × (c.timer ≡ none)))

-- The phase, the flag, the timer and the thread agree.
unfoldable pub Phased : Control → Type 0
Phased c = InOperation c ⊎ AtRest c

Left-Phased :
    (s : Bool) (c : Control) (o : Outcome) → Phased c → After (Left s c) o → After Phased o
unfolding Phased
Left-Phased true c (Outcome.done c') p e = subst Phased (sym e) p
Left-Phased false c (Outcome.done c') p r = inl (r.started, (r.phase, (r.suspended.0, r.timer)))
Left-Phased s c Outcome.asserted p h = tt
Left-Phased s c Outcome.waiting p h = tt

stop_cycle-AtRest :
    (n : ℕ) (c : Control) → c.started ≡ false → AtRest (stop_cycle (request n 0 state_preop c))
unfolding stop_cycle enter_idle
stop_cycle-AtRest n c s =
    (ap (λ x. x.started) (request_eq n 0 state_preop c) ∙ s, (refl, (refl, refl)))

stops-Phased :
    (s b : Bool) (c d : Control)
    → Phased c
    → AtRest d
    → After Phased (ended (if not s then some c else if b then some d else none))
unfolding Phased
stops-Phased true true c d p r = inr r
stops-Phased true false c d p r = tt
stops-Phased false b c d p r = p

call-Phased : (k : Call) (c : Control) → Phased c → After Phased (call k c)
unfolding call Phased stop
call-Phased (Call.starts l later last_send) c p =
    Left-Phased c.started c _ p (start-Running l later last_send c)
call-Phased (Call.stops looks) c p =
    stops-Phased c.started (c.rescan_request || await_preop looks) c _ p
      (stop_cycle-AtRest c.slave_count (record c { started = false }) refl)
call-Phased (Call.works m) c (inl o) = inl o
call-Phased (Call.works m) c (inr r) = inr r

and_then-Phased :
    (o : Outcome) (f : Control → Outcome)
    → After Phased o
    → ((c : Control) → Phased c → After Phased (f c))
    → After Phased (and_then o f)
and_then-Phased (Outcome.done c) f p g = g c p
and_then-Phased Outcome.asserted f p g = tt
and_then-Phased Outcome.waiting f p g = tt

-- Whatever calls of ec_master_start and ec_master_stop follow each other from a master at rest, and
-- whatever the other threads do in between and while they sleep: once the calls have ended, the
-- master is either started, in operation, with the timer running and the thread for the other
-- datagrams suspended, or not started, idle, without the timer and with that thread resumed.
pub run-Phased : (ks : List Call) (c : Control) → Phased c → After Phased (run ks c)
unfolding run
run-Phased [] c p = p
run-Phased (k ∷ ks) c p = and_then-Phased (call k c) (run ks) (call-Phased k c p) (run-Phased ks)
