-- ===== src/Scan/Whole/Answered.antt =====
-- src/ec_slave.c, ec_slaves_scanning: the count of the slaves needs an answer on every device.
use cherry_ecat.Prelude.{
  ℕ, zero, suc, ◌+◌, ◌<◌, ◌≡◌, ◌≢◌, inl, inr, refl, sym, ◌∙◌, List, [], ◌∷◌, Bool, true, false,
  ◌==◌, length, length-set, get_or, set, arith, if◌then◌else◌, Bool-cases, read_u8,
}
use cherry_ecat.Datagram.Fill.{brd}
use cherry_ecat.Exchange.{Io, Event, Errno, ok, err, wait, finish_wait, queue_ext_datagram}
use cherry_ecat.Exchange.Facts.{Gives, Gives-next}
use cherry_ecat.Master.Receive.{deliver}
use cherry_ecat.Scan.{poll}
use cherry_ecat.Scan.Whole.{Device, Scan, no_device, note_answer, count_slaves}

-- The datagram came back with a working counter other than 0.
Counted : Unit {0} → Io → Type 0
Counted _ w = w.datagram.working_counter ≢ 0

received-Counted :
    (b : Bool) (w : Io)
    → (b ≡ false → w.datagram.working_counter ≢ 0)
    → Gives Counted (if b then err Errno.wc else ok tt, w)
unfolding Counted
received-Counted true w h = tt
received-Counted false w h = h refl

finish_wait-Counted : (e : Event) (w : Io) → Gives Counted (finish_wait e w)
unfolding finish_wait deliver
finish_wait-Counted (Event.received c bytes) w =
    received-Counted (c == 0) _ (λ e q. let z : c ≡ 0 = q in ground arith)
finish_wait-Counted Event.timed_out w = tt
finish_wait-Counted Event.failed w = tt
finish_wait-Counted Event.spurious w = tt
finish_wait-Counted (Event.sem_error e) w = tt

wait-Counted : (es : List Event) (w : Io) → Gives Counted (wait es w)
unfolding wait
wait-Counted [] w = tt
wait-Counted (e ∷ es) w = finish_wait-Counted e _

poll-Counted : (n : ℕ) (w : Io) → Gives Counted (poll n (λ d. brd d 0x130 2) w)
unfolding poll queue_ext_datagram
poll-Counted n w = wait-Counted w.events _

-- Each of the `n` devices has slaves that answer.
pub Answered : ℕ → Scan → Io → Type 0
Answered n s w =
    (length s.devices ≡ n) × ((i : ℕ) → i < n → (get_or s.devices i no_device).working_counter ≢ 0)

counter-set :
    (ds : List Device) (i j : ℕ) (d : Device) (b : Bool)
    → i < length ds
    → (i == j) ≡ b
    → (get_or (set ds i d) j no_device).working_counter
      ≡ (if b then d.working_counter else (get_or ds j no_device).working_counter)
counter-set [] i j d b h e = absurd (omega arith)
counter-set (x ∷ ds) zero zero d b h e = ground arith
counter-set (x ∷ ds) zero (suc j) d b h e = ground arith
counter-set (x ∷ ds) (suc i) zero d b h e = ground arith
counter-set (x ∷ ds) (suc i) (suc j) d b h e = counter-set ds i j d b (omega arith) (ground arith)

note_answer-counters :
    (i counter state j : ℕ) (s : Scan)
    → i < length s.devices
    → counter ≢ 0
    → j < i + 1
    → ((k : ℕ) → k < i → (get_or s.devices k no_device).working_counter ≢ 0)
    → (get_or (note_answer i counter state s).devices j no_device).working_counter ≢ 0
note_answer-counters i counter state j s l c m h q = elim (Bool-cases (i == j)) [
  | inl e ↦ c (sym (counter_at true e) ∙ q)
  | inr e ↦ h j (ground arith) (sym (counter_at false e) ∙ q)
]
  where
    counter_at :
        (b : Bool)
        → (i == j) ≡ b
        → (get_or (note_answer i counter state s).devices j no_device).working_counter
          ≡ (if b then counter else (get_or s.devices j no_device).working_counter)
    counter_at b e = counter-set s.devices i j _ b l e

each_device :
    (n left i : ℕ) (s : Scan) (w : Io)
    → i + left ≡ n
    → length s.devices ≡ n
    → ((j : ℕ) → j < i → (get_or s.devices j no_device).working_counter ≢ 0)
    → Gives (Answered n) (count_slaves left i s w)
unfolding count_slaves Answered Counted
each_device n zero i s w e l h = (l, λ j m. h j (omega arith))
each_device n (suc left) i s w e l h =
    Gives-next Counted (Answered n) (poll i (λ d. brd d 0x130 2) w) _ (poll-Counted i w) λ _ a c.
      let counter = a.datagram.working_counter in
      let state = read_u8 a.datagram.buf 0 in
      each_device n left (i + 1) (note_answer i counter state s) a (omega arith)
        (length-set s.devices i _ ∙ l)
        λ j m. note_answer-counters i counter state j s (omega arith) c m h

-- Where the count of the slaves succeeds, every device has a slave that answers: a device without
-- slaves ends ec_slaves_scanning before anything is scanned.
pub count_slaves-Answered :
    (s : Scan) (w : Io)
    → Gives (Answered (length s.devices)) (count_slaves (length s.devices) 0 s w)
count_slaves-Answered s w =
    each_device (length s.devices) (length s.devices) 0 s w (omega arith) refl
      (λ j m. absurd (omega arith))
