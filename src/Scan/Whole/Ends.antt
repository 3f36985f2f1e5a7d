-- ===== src/Scan/Whole/Ends.antt =====
-- src/ec_slave.c, ec_slaves_scanning as a whole, while no more than finitely many sleeps end.
use cherry_ecat.Prelude.{
  ℕ, zero, suc, ◌+◌, ◌≤◌, ◌<◌, ◌≡◌, ◌≢◌, ◌⊎◌, inl, inr, refl, ap, ◌∙◌, List, [], ◌∷◌, map, Bool,
  true, false, not, Option, none, some, ◌==◌, ◌&&◌, ◌||◌, length, length-set, get_or, get_elem?,
  arith, if◌then◌else◌, Ends,
}
use cherry_ecat.Datagram.Fill.{brd}
use cherry_ecat.Exchange.{Io, Out, M, ok, err, asserted, blocked, next, pure, ◌>>=◌}
use cherry_ecat.Exchange.Facts.{Post, Gives, Gives-any, Gives-next, Gives-if}
use cherry_ecat.Master.Control.{Control, stop, leaves, await_preop}
use cherry_ecat.Slave.Config.Monitor.{tried, attempt, scan_slaves_state}
use cherry_ecat.Slave.Config.Monitor.Awake.{Completes, scan_slaves_state-Completes}
use cherry_ecat.Slave.Delays.{DcOutcome}
use cherry_ecat.Slave.Delays.Settled.{Settled, calc_dc-Settled}
use cherry_ecat.Slave.Topology.{next_of}
use cherry_ecat.Scan.{poll, total}
use cherry_ecat.Scan.Addresses.{length-stations}
use cherry_ecat.Scan.Rescan.{Found, clear_slaves, rescan, bus_of, node_of}
use cherry_ecat.Scan.Finds.{Post-poll, Post-rescan, Lists, FindsAll, rescan-Lists}
use cherry_ecat.Scan.Whole.{
  Device, Scan, look, on_stop, stop_all, forget, link_down, no_device, note_link, check_links,
  count_slaves, on_clocks, finish, done_scan, begun_scan, counters, scan_anew, watch,
  slaves_scanning,
}

-- A device without a link ends the wait of ec_master_stop.
leaves-look :
    (ds : List Device) (i : ℕ)
    → i < length ds
    → (get_or ds i no_device).up ≡ false
    → leaves (look ds) ≡ true
unfolding leaves
leaves-look [] i h e = absurd (omega arith)
leaves-look (d ∷ ds) zero h e = ground arith
leaves-look (d ∷ ds) (suc i) h e = ground (arith, leaves-look ds i (omega arith) e)

-- A run returns, or stops at an assertion, or sleeps when no event is left.
pub Halts : {A : Type 0} → Out A × Io → Type 0
Halts (ok a, w) = Unit
Halts (err e, w) = Unit
Halts (asserted, w) = Unit
Halts (blocked, w) = w.events ≡ []

Halts-next :
    {A B : Type 0} (P : A → Io → Type 0) (r : Out A × Io) (f : A → M B)
    → Halts r
    → Gives P r
    → ((a : A) (w : Io) → P a w → Halts (f a w))
    → Halts (next r f)
unfolding Halts
Halts-next P (ok a, w) f h g k = k a w g
Halts-next P (err e, w) f h g k = tt
Halts-next P (asserted, w) f h g k = tt
Halts-next P (blocked, w) f h g k = h

Halts-if :
    {A : Type 0} (b : Bool) (m m' : M A) (w : Io)
    → (b ≡ true → Halts (m w))
    → (b ≡ false → Halts (m' w))
    → Halts ((if b then m else m') w)
Halts-if true m m' w h h' = h refl
Halts-if false m m' w h h' = h' refl

Post-Halts : {A : Type 0} (n : ℕ) (r : Out A × Io) → Post 0 n r → Halts r
unfolding Halts
Post-Halts n (ok a, w) h = tt
Post-Halts n (err e, w) h = tt
Post-Halts n (asserted, w) h = tt
Post-Halts n (blocked, w) h = h

Completes-Halts : {A : Type 0} (r : Out A × Io) → Completes r → Halts r
unfolding Halts
Completes-Halts (ok a, w) h = tt
Completes-Halts (err e, w) h = tt
Completes-Halts (asserted, w) h = tt
Completes-Halts (blocked, w) h = h

-- The number of devices does not change.
Sized : ℕ → Scan → Io → Type 0
Sized n s w = length s.devices ≡ n

-- A stop of the master that does not wait.
stopped-Halts :
    (s b : Bool) (sc : Scan) (c d : Control) (w : Io)
    → b ≡ true
    → Halts (on_stop sc w (if not s then some c else if b then some d else none))
unfolding Halts
stopped-Halts true true sc c d w h = tt
stopped-Halts false true sc c d w h = tt
stopped-Halts s false sc c d w h = absurd (ground arith)

stop_all-Halts :
    (s : Scan) (w : Io)
    → (s.control.rescan_request ≡ true) ⊎ (leaves (look s.devices) ≡ true)
    → Halts (stop_all s w)
unfolding stop_all stop await_preop
stop_all-Halts s w h =
    stopped-Halts s.control.started (s.control.rescan_request || (leaves (look s.devices) || false))
      s _ _ w (elim h [ inl e ↦ ground arith | inr e ↦ ground arith ])

on_stop-Sized :
    (s : Scan) (w : Io) (o : Option Control) → Gives (Sized (length s.devices)) (on_stop s w o)
unfolding Sized
on_stop-Sized s w none = tt
on_stop-Sized s w (some c) = refl

stop_all-Sized : (s : Scan) (w : Io) → Gives (Sized (length s.devices)) (stop_all s w)
unfolding stop_all
stop_all-Sized s w = on_stop-Sized s w _

link_down-Halts : (s : Scan) (w : Io) → leaves (look s.devices) ≡ true → Halts (link_down s w)
unfolding link_down clear_slaves Halts
link_down-Halts s w h =
    Halts-next (λ _ _. Unit) (stop_all s w) _ (stop_all-Halts s w (inr h))
      (Gives-any (stop_all s w)) λ s' a _. tt

length-forget : (ds : List Device) → length (map forget ds) ≡ length ds
length-forget [] = refl
length-forget (d ∷ ds) = ap suc (length-forget ds)

link_down-Sized : (s : Scan) (w : Io) → Gives (Sized (length s.devices)) (link_down s w)
unfolding link_down clear_slaves Sized
link_down-Sized s w =
    Gives-next (Sized (length s.devices)) (Sized (length s.devices)) (stop_all s w) _
      (stop_all-Sized s w) λ s' a e. length-forget s'.devices ∙ e

-- What the loop over the links does with a device.
abbrev check_link : ℕ → Scan → M Scan
check_link i s =
    let d = get_or s.devices i no_device in if d.link_state && not d.up then link_down s else pure s

check_link-Halts : (i : ℕ) (s : Scan) (w : Io) → i < length s.devices → Halts (check_link i s w)
unfolding Halts
check_link-Halts i s w h =
    let d = get_or s.devices i no_device in
    Halts-if (d.link_state && not d.up) (link_down s) (pure s) w
      (λ e. link_down-Halts s w (leaves-look s.devices i h (ground arith))) (λ _. tt)

check_link-Sized : (i : ℕ) (s : Scan) (w : Io) → Gives (Sized (length s.devices)) (check_link i s w)
unfolding Sized
check_link-Sized i s w =
    let d = get_or s.devices i no_device in
    Gives-if (Sized (length s.devices)) (d.link_state && not d.up) (link_down s) (pure s) w
      (λ _. link_down-Sized s w) (λ _. refl)

check_links-Halts :
    (left i : ℕ) (s : Scan) (w : Io) → i + left ≤ length s.devices → Halts (check_links left i s w)
unfolding check_links Halts Sized
check_links-Halts zero i s w h = tt
check_links-Halts (suc left) i s w h =
    Halts-next (Sized (length s.devices)) (check_link i s w) _
      (check_link-Halts i s w (omega arith)) (check_link-Sized i s w)
      λ s' a e.
        check_links-Halts left (i + 1) (note_link i s') a
          (omega (arith, e, length-set s'.devices i _))

count_slaves-Halts : (left i : ℕ) (s : Scan) (w : Io) → Halts (count_slaves left i s w)
unfolding count_slaves Halts
count_slaves-Halts zero i s w = tt
count_slaves-Halts (suc left) i s w =
    Halts-next (λ _ _. Unit) (poll i (λ d. brd d 0x130 2) w) _
      (Post-Halts (length w.events) _ (Post-poll i (λ d. brd d 0x130 2) w))
      (Gives-any (poll i (λ d. brd d 0x130 2) w)) λ _ a _. count_slaves-Halts left (i + 1) _ a

-- The scan anew finds at least one slave, so that the clock's search has a slave to start from.
on_clocks-Halts :
    (n : ℕ) (s : Scan) (fs : List Found) (o : DcOutcome) (w : Io)
    → Settled n o
    → Halts (on_clocks s fs o w)
unfolding Halts
on_clocks-Halts n s fs (DcOutcome.clocks c) w h = tt
on_clocks-Halts n s fs DcOutcome.asserted w h = tt
on_clocks-Halts n s fs DcOutcome.endless w h = absurd h

-- What the attempt of a scan anew gives.
Tried : List ℕ → Option (Option (List Found)) → Io → Type 0
Tried cs o w = Ends (λ o'. FindsAll cs o' w) o

tried-Halts : {A : Type 0} (n : ℕ) (r : Out A × Io) → Post 0 n r → Halts (tried r)
unfolding Halts
tried-Halts n (ok a, w) h = tt
tried-Halts n (err e, w) h = tt
tried-Halts n (asserted, w) h = tt
tried-Halts n (blocked, w) h = h

tried-Tried :
    (cs : List ℕ) (r : Out (Option (List Found)) × Io)
    → Gives (FindsAll cs) r
    → Gives (Tried cs) (tried r)
unfolding Tried
tried-Tried cs (ok a, w) h = h
tried-Tried cs (err e, w) h = tt
tried-Tried cs (asserted, w) h = tt
tried-Tried cs (blocked, w) h = tt

length-map : (fs : List Found) → length (map (λ f. f.station) fs) ≡ length fs
length-map [] = refl
length-map (f ∷ fs) = ap suc (length-map fs)

unlinked : (o : Option Found) (p : ℕ) → ((node_of o).ports p).next_slave ≡ none
unlinked none p = refl
unlinked (some f) p = refl

node_of-free : (fs : List Found) (n q p : ℕ) → next_of (bus_of fs n) q p ≡ none
unfolding bus_of
node_of-free fs n q p = unlinked (get_elem? fs q) p

finish-Halts :
    (cs : List ℕ) (s : Scan) (o : Option (Option (List Found))) (w : Io)
    → Tried cs o w
    → Halts (finish s o w)
unfolding finish Tried FindsAll Lists Halts bus_of
finish-Halts cs s none w h = tt
finish-Halts cs s (some none) w h = tt
finish-Halts cs s (some (some fs)) w h =
    let found : length fs ≡ total cs =
      omega (arith, length-map fs, ap length h.0, length-stations cs 0 0) in
    let some_slave : total cs ≢ 0 = h.1 in
    on_clocks-Halts (length fs) (done_scan s) fs _ w (
      calc_dc-Settled (length fs) (record (s.clocks) { bus = bus_of fs (length fs) }) (omega arith)
        (omega arith) (λ q p z. node_of-free fs (length fs) q p))

scan_anew-Halts :
    (stray : ℕ) (b : Bool) (alloc : ℕ → ℕ → Bool) (s : Scan) (w : Io)
    → s.control.rescan_request ≡ true
    → Halts (scan_anew stray b alloc s w)
unfolding scan_anew clear_slaves
scan_anew-Halts stray b alloc s w h =
    Halts-next (λ _ _. Unit) (stop_all s w) _ (stop_all-Halts s w (inl h))
      (Gives-any (stop_all s w))
      λ s1 a _.
        let cs = counters s1 in
        Halts-next (Tried cs) (attempt (rescan stray b alloc cs) _) _
          (tried-Halts (length a.events) _ (Post-rescan stray b alloc cs _))
          (tried-Tried cs _ (rescan-Lists stray b alloc cs _))
          λ o c t. finish-Halts cs (begun_scan s1) o c t

watch-Halts : (o : Option Scan) (w : Io) → Halts (watch o w)
unfolding watch Halts
watch-Halts none w = tt
watch-Halts (some s) w =
    Halts-if (not (w.slave_count == 0) && s.control.scan_done)
      (scan_slaves_state w.slave_count 0 s.setups s.control.force_update >>= λ f.
        pure (some (record s { control = record (s.control) { force_update = f } })))
      (pure (some s)) w
      (λ _.
        Halts-next (λ _ _. Unit)
          (scan_slaves_state w.slave_count 0 s.setups s.control.force_update w) _
          (Completes-Halts _
            (scan_slaves_state-Completes w.slave_count 0 s.setups s.control.force_update w))
          (Gives-any (scan_slaves_state w.slave_count 0 s.setups s.control.force_update w))
          λ f a _. tt)
      (λ _. tt)

-- With finitely many events, the model of ec_slaves_scanning has a result, stops at an assertion, or has
-- used up the events and sleeps: between two sleeps it does nothing without end. The result `none`
-- is a parser that has left the image, of which nothing is said. How many sleeps there are is not
-- bounded.
pub slaves_scanning-Halts :
    (stray : ℕ) (allocated : Bool) (alloc : ℕ → ℕ → Bool) (s : Scan) (w : Io)
    → Halts (slaves_scanning stray allocated alloc s w)
unfolding slaves_scanning Halts
slaves_scanning-Halts stray allocated alloc s w =
    Halts-next (λ _ _. Unit) (check_links (length s.devices) 0 s w) _
      (check_links-Halts (length s.devices) 0 s w (omega arith))
      (Gives-any (check_links (length s.devices) 0 s w))
      λ s1 a _.
        Halts-next (λ _ _. Unit) (count_slaves (length s1.devices) 0 s1 a) _
          (count_slaves-Halts (length s1.devices) 0 s1 a)
          (Gives-any (count_slaves (length s1.devices) 0 s1 a))
          λ s2 b _.
            let m =
              if s2.control.rescan_request
              then scan_anew stray allocated alloc s2
              else pure (some s2) in
            Halts-next (λ _ _. Unit) (m b) watch
              (Halts-if s2.control.rescan_request (scan_anew stray allocated alloc s2)
                (pure (some s2)) b (λ e. scan_anew-Halts stray allocated alloc s2 b e) (λ _. tt))
              (Gives-any (m b)) λ o c _. watch-Halts o c
