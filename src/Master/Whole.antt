-- ===== src/Master/Whole.antt =====
-- A whole run of ec_master_send of src/ec_master.c, with its timeouts and all devices.
use cherry_ecat.Prelude.{
  ℕ, zero, suc, ◌+◌, ◌≡◌, refl, ap, ◌∙◌, sym, subst, List, [], ◌∷◌, Bool, true, false, Bool-cases,
  inl, inr, none, some, Option, Ends, length,
}
use cherry_ecat.Master.{Master, contains}
use cherry_ecat.Master.Frame.{Fill, fill_frame}
use cherry_ecat.Master.Send.{send_rounds, send_datagrams, send_frame, start_fill, is_empty}
use cherry_ecat.Master.Cycle.{expire_all, fail_all, send_devices, send}
use cherry_ecat.Master.Queue.{Distinct}
use cherry_ecat.Master.Retire.{Retires}
use cherry_ecat.Master.Complete.{expire_all-Retires, fail_all-Retires}
use cherry_ecat.Master.Progress.{send_datagrams_total}
use cherry_ecat.Master.Drained.{queue-send_frame}

-- The queue is as it was.
abbrev SameQueue : Master → Master → Type 0
SameQueue m m' = m'.queue ≡ m.queue

SameQueue-trans :
    (m m' : Master) (o : Option Master)
    → SameQueue m m'
    → Ends (SameQueue m') o
    → Ends (SameQueue m) o
SameQueue-trans m m' none h k = tt
SameQueue-trans m m' (some m'') h k = k ∙ h

send_rounds-SameQueue : (fuel n : ℕ) (m : Master) → Ends (SameQueue m) (send_rounds fuel n m)
unfolding send_rounds
send_rounds-SameQueue zero n m = tt
send_rounds-SameQueue (suc fuel) n m = elim (Bool-cases (is_empty f.sent)) [
  | inl e ↦ rw e refl
  | inr e ↦ rw e (elim (Bool-cases f.more) [
    | inl g ↦ simp g (
        SameQueue-trans m (send_frame n m f) _ (queue-send_frame n m f)
          (send_rounds-SameQueue fuel n (send_frame n m f)))
    | inr g ↦ simp g (queue-send_frame n m f)
  ])
]
  where
    f : Fill
    f = fill_frame n m.queue (start_fill m)

-- ec_master_send_datagrams returns and leaves the queue as it was.
send_datagrams-SameQueue :
    (n : ℕ) (m : Master) → (m' : Master) × (send_datagrams n m ≡ some m') × (m'.queue ≡ m.queue)
send_datagrams-SameQueue n m =
    let (m', e) = send_datagrams_total n m in
    (
      m',
      e,
      subst (Ends (SameQueue m)) e
          (unfold send_datagrams in send_rounds-SameQueue (suc (length m.queue)) n m),
    )

-- What is linked afterwards was linked before.
abbrev Within : Master → Master → Type 0
Within m m' = (q : ℕ) → contains q m'.queue ≡ true → contains q m.queue ≡ true

send_devices-some :
    (n : ℕ) (links : List Bool) (m m' : Master)
    → send_datagrams n m ≡ some m'
    → send_devices n (true ∷ links) m ≡ send_devices (n + 1) links m'
unfolding send_devices
send_devices-some n links m m' e =
    ap (λ (o : Option Master). elim o [ none ↦ none | some m'' ↦ send_devices (n + 1) links m'' ]) e

send_devices_total :
    (n : ℕ) (links : List Bool) (m : Master)
    → Distinct m.queue
    → (m' : Master) × (send_devices n links m ≡ some m') × Distinct m'.queue × Within m m'
unfolding send_devices
send_devices_total n [] m d = (m, refl, d, λ q c. c)
send_devices_total n (true ∷ links) m d =
    let (m', e, k) = send_datagrams-SameQueue n m in
    let (m'', g, d', i) = send_devices_total (n + 1) links m' (subst Distinct (sym k) d) in
    (
      m'',
      send_devices-some n links m m' e ∙ g,
      d',
      λ q c. subst (λ (xs : List ℕ). contains q xs ≡ true) k (i q c),
    )
send_devices_total n (false ∷ links) m d =
    let r = fail_all-Retires n m d in
    let (m', e, d', i) = send_devices_total (n + 1) links (fail_all n m.queue m) r.distinct in
    (m', e, d', λ q c. (r.stays q (i q c)).0)

-- Where the queue holds no pointer twice, ec_master_send returns for all states of the links, no
-- pointer is in the queue twice afterwards, and what is in it was in it before.
pub send_total :
    (links : List Bool) (m : Master)
    → Distinct m.queue
    → (m' : Master) × (send links m ≡ some m')
      × Distinct m'.queue
      × ((q : ℕ) → contains q m'.queue ≡ true → contains q m.queue ≡ true)
unfolding send
send_total links m d =
    let r = expire_all-Retires m d in
    let (m', e, d', i) = send_devices_total 0 links (expire_all m.queue m) r.distinct in
    (m', e, d', λ q c. (r.stays q (i q c)).0)

-- Where the queue holds no pointer twice, both loops of ec_master_send over the queue, the one that
-- times datagrams out and the one for a device whose link is down, complete datagrams and do nothing
-- else to them: each datagram stays linked in its state or is unlinked in a final state with its
-- waiter woken, and what was not linked is not touched.
pub send_loops-Retires :
    (n : ℕ) (m : Master)
    → Distinct m.queue
    → Retires m (expire_all m.queue m) × Retires m (fail_all n m.queue m)
send_loops-Retires n m d = (expire_all-Retires m d, fail_all-Retires n m d)
