-- ===== src/Master/Period/Queued.antt =====
-- src/ec_master.c, ec_master_period_process: it returns, and what is in the queue afterwards.
use cherry_ecat.Prelude.{
  sym, ◌∙◌, ℕ, ◌+◌, ◌%◌, ◌≡◌, refl, arith, List, [], ◌∷◌, Bool, true, false, Bool-cases, inl, inr,
  ◌||◌, Option, none, some, if◌then◌else◌, u64_mod, ap,
}
use cherry_ecat.Master.{Master, contains, queue_datagram, jiffies}
use cherry_ecat.Master.Queue.{Distinct, Distinct-append, contains-append}
use cherry_ecat.Master.Whole.{send_total}
use cherry_ecat.Master.Period.{
  Period, is_received, steer, write_time, sync_clock, clear, operate, queue_clock, close,
  period_process,
}

-- No pointer is in the queue twice, and each was in the queue of `m` or is one of `ps`.
abbrev pub From : Master → List ℕ → Master → Type 0
From m ps m' =
    Distinct m'.queue
    × ((q : ℕ) → contains q m'.queue ≡ true → (contains q m.queue || contains q ps) ≡ true)

From-queue_datagram :
    (m : Master) (ps : List ℕ) (m' : Master) (d : ℕ)
    → contains d ps ≡ true
    → From m ps m'
    → From m ps (queue_datagram m' d)
unfolding queue_datagram
From-queue_datagram m ps m' d k f = elim (Bool-cases (contains d m'.queue)) [
  | inl e ↦ rw e f
  | inr e ↦
      rw e (
        Distinct-append d m'.queue e f.0,
        λ q c. ground (arith, f.1 q, contains-append q d m'.queue),
      )
]

From-same :
    (m : Master) (ps : List ℕ) (m' n : Master) → n.queue ≡ m'.queue → From m ps m' → From m ps n
From-same m ps m' n e f = rw e f

write_time-queue : (m : Master) (d : ℕ) (b : Bool) → (write_time m d b).queue ≡ m.queue
unfolding write_time jiffies
write_time-queue m d true = refl
write_time-queue m d false = refl

-- The three datagrams of the periodic process.
abbrev pub periodic : Period → List ℕ
periodic p = p.pdo_datagram ∷ p.dc_ref_sync_datagram ∷ p.dc_all_sync_datagram ∷ []

-- What the parts before the process data leave: the queue with periodic datagrams added, and which
-- datagrams these are.
abbrev Kept : Period → Period → Type 0
Kept p p' =
    From p.master (periodic p) p'.master
    × (p'.dc_all_sync_datagram ≡ p.dc_all_sync_datagram)
    × (p'.pdo_datagram ≡ p.pdo_datagram)
    × (p'.interval ≡ p.interval)

Kept-refl : (p : Period) → Distinct p.master.queue → Kept p p
Kept-refl p d = ((d, λ q c. ground arith), refl, refl, refl)

sync_clock-Kept :
    (p : Period) (ref : ℕ × Bool) → Distinct p.master.queue → Kept p (sync_clock p ref)
unfolding sync_clock steer
sync_clock-Kept p (delay, b) d = elim (Bool-cases p.dc_sync_with_dc_ref_enable) [
  | inr e ↦ rw e (
    From-queue_datagram p.master (periodic p) (write_time p.master p.dc_ref_sync_datagram b)
        p.dc_ref_sync_datagram (ground arith)
        (From-same p.master (periodic p) p.master (write_time p.master p.dc_ref_sync_datagram b)
          (write_time-queue p.master p.dc_ref_sync_datagram b) (Kept-refl p d).0),
    refl,
    refl,
    refl,
  )
  | inl e ↦ elim (Bool-cases (is_received (p.master.cells p.dc_all_sync_datagram).state)) [
    | inl k ↦ rw (e, k) (Kept-refl p d)
    | inr k ↦ rw (e, k) (Kept-refl p d)
  ]
]

queue_clock-Kept :
    (p : Period) (ref : Option (ℕ × Bool)) → Distinct p.master.queue → Kept p (queue_clock p ref)
unfolding queue_clock
queue_clock-Kept p none d = Kept-refl p d
queue_clock-Kept p (some ref) d =
    let (f, all, pdo, interval) = sync_clock-Kept p ref d in
    (
      From-queue_datagram p.master (periodic p)
          (clear (sync_clock p ref).master (sync_clock p ref).dc_all_sync_datagram)
          (sync_clock p ref).dc_all_sync_datagram (rw all (ground arith))
          (From-same p.master (periodic p) (sync_clock p ref).master
            (clear (sync_clock p ref).master (sync_clock p ref).dc_all_sync_datagram) refl f),
      all,
      pdo,
      interval,
    )

operate_total :
    (links : List Bool) (p : Period)
    → Distinct p.master.queue
    → (p' : Period) × (operate links p ≡ some p')
      × From p.master (periodic p) p'.master
      × (p'.interval ≡ (p.interval + 1) % u64_mod)
unfolding operate jiffies
operate_total links p d =
    let start = record p { master = (jiffies p.master).1 } in
    let p1 = queue_clock start p.dc_ref_clock in
    let (f, all, pdo, interval) = queue_clock-Kept start p.dc_ref_clock d in
    let g =
      From-queue_datagram p.master (periodic p) p1.master p1.pdo_datagram (rw pdo (ground arith))
        f in
    let (m', ok, d', i) = send_total links (queue_datagram p1.master p1.pdo_datagram) g.0 in
    (
      record p1 {
        master = (jiffies m').1;
        last_start_time = (jiffies p.master).0;
        interval = (p1.interval + 1) % u64_mod;
      },
      ap (λ o. close p1 (jiffies p.master).0 o) ok,
      (d', λ q c. g.1 q (i q c)),
      ap (λ (k : ℕ). (k + 1) % u64_mod) interval,
    )

-- ec_master_period_process, from a queue that holds no pointer twice, returns for all states of the
-- links. Afterwards no pointer is in the queue twice, each was there before or is the datagram of
-- the process data or one of the two of the distributed clocks, and the number of the interval has
-- gone up by one modulo 2 ^ 64 in the operation phase, and is as before in any other.
pub period_process_total :
    (links : List Bool) (p : Period)
    → Distinct p.master.queue
    → (p' : Period) × (period_process links p ≡ some p')
      × From p.master (periodic p) p'.master
      × (p'.interval ≡ (if p.in_operation then (p.interval + 1) % u64_mod else p.interval))
unfolding period_process
period_process_total links p d =
    let next = (p.interval + 1) % u64_mod in
    elim (Bool-cases p.in_operation) [
      | inr e ↦ (
        p,
        ap (λ b. if b then operate links p else some p) e,
        (Kept-refl p d).0,
        sym (ap (λ b. if b then next else p.interval) e),
      )
      | inl e ↦
          let (p', ok, f, interval) = operate_total links p d in
          (
            p',
            ap (λ b. if b then operate links p else some p) e ∙ ok,
            f,
            interval ∙ sym (ap (λ b. if b then next else p.interval) e),
          )
    ]
