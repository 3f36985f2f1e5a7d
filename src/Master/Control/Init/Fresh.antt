-- ===== src/Master/Control/Init/Fresh.antt =====
-- What ec_master_init of src/ec_master.c leaves, and every run of the master from there on.
use cherry_ecat.Prelude.{
  ℕ, ◌≡◌, ◌⊎◌, ◌∙◌, refl, inr, List, [], ◌∷◌, none, some, true, false, Bool-cases, inl, ◌==◌, arith,
}
use cherry_ecat.Datagram.{Datagram}
use cherry_ecat.Datagram.Fill.{init_allocated}
use cherry_ecat.Master.{store, contains}
use cherry_ecat.Master.Control.{Control, enter_idle}
use cherry_ecat.Master.Control.Running.{After}
use cherry_ecat.Master.Control.Calls.{Call, run, AtRest, Phased, run-Phased}
use cherry_ecat.Master.Control.Init.{
  Memory, Resources, Places, Init, zeros, put_zeros, max_data_size, cleared, clock_runs,
  all_devices, init_datagrams, create, init,
}

-- Memory for a datagram, with what is in it.
abbrev pub Holds : Memory → List ℕ → Type 0
Holds memory buf = (memory.buf ≡ some buf) × (memory.sem ≡ true)

-- Everything that the function asks for is given.
pub record AllGiven (res : Resources) (b1 b2 b3 : List ℕ) : Type 0 where
  pub netdevs : all_devices res.netdevs ≡ some true
  pub main : Holds res.main b1
  pub dc_ref_sync : Holds res.dc_ref_sync b2
  pub dc_all_sync : Holds res.dc_all_sync b3
  pub scan_lock : res.scan_lock ≡ true
  pub nonperiod_sem : res.nonperiod_sem ≡ true
  pub nonperiod_thread : res.nonperiod_thread ≡ true
  pub scan_thread : res.scan_thread ≡ true
  pub linkdetect_timer : res.linkdetect_timer ≡ true

-- The three datagrams are not the same.
abbrev pub Apart : Places → Type 0
Apart at =
    ((at.main_datagram == at.dc_ref_sync_datagram) ≡ false)
    × ((at.main_datagram == at.dc_all_sync_datagram) ≡ false)
    × ((at.dc_ref_sync_datagram == at.dc_all_sync_datagram) ≡ false)

-- A datagram in its initial state, with memory of its own.
unfoldable pub fresh : List ℕ → ℕ → Datagram
fresh buf size = record zeros { buf = buf; mem_size = size }

-- A master at rest with an empty queue, without slaves, with the datagrams in their initial state.
pub record Fresh (at : Places) (b1 b2 b3 : List ℕ) (c : Control) : Type 0 where
  pub at_rest : AtRest c
  pub queue : c.master.queue ≡ []
  pub datagram_index : c.master.datagram_index ≡ 1
  pub slave_count : c.slave_count ≡ 0
  pub main : c.master.cells at.main_datagram ≡ fresh b1 max_data_size
  pub dc_ref_sync : c.master.cells at.dc_ref_sync_datagram ≡ fresh b2 8
  pub dc_all_sync : c.master.cells at.dc_all_sync_datagram ≡ fresh b3 8

-- What the application sets before it starts the master.
abbrev pub set_cycle : ℕ → ℕ → Control → Control
set_cycle cycle shift c = record c { cycle_time = cycle; shift_time = shift }

-- The function returns 0 with this master.
abbrev pub Ready : (Control → Type 0) → Init → Type 0
Ready P (Init.ready c) = P c
Ready P (Init.failed c) = ⊥
Ready P Init.asserted = ⊥

put_zeros_lem :
    (ps : List ℕ) (cells : ℕ → Datagram) (q : ℕ)
    → (contains q ps ≡ true) ⊎ (cells q ≡ zeros)
    → put_zeros ps cells q ≡ zeros
put_zeros_lem [] cells q (inl e) = absurd (ground arith)
put_zeros_lem [] cells q (inr e) = e
put_zeros_lem (p ∷ ps) cells q h = elim (Bool-cases (p == q)) [
  | inl e ↦ put_zeros_lem ps (store cells p zeros) q (inr (rw e refl))
  | inr e ↦
      put_zeros_lem ps (store cells p zeros) q
        (elim h [ inl g ↦ inl (ground (arith, e, g)) | inr g ↦ inr (rw e g) ])
]

==_swap : (p q : ℕ) → (p == q) ≡ false → (q == p) ≡ false
==_swap p q h = ground arith

store_same : (cells : ℕ → Datagram) (p : ℕ) (d : Datagram) → store cells p d p ≡ d
store_same cells p d = let e : (p == p) ≡ true = ground arith in rw e refl

store_other :
    (cells : ℕ → Datagram) (p q : ℕ) (d : Datagram) → (p == q) ≡ false → store cells p d q ≡ cells q
store_other cells p q d e = rw e refl

allocated_lem :
    (d : Datagram) (memory : Memory) (buf : List ℕ) (size : ℕ)
    → d ≡ zeros
    → Holds memory buf
    → init_allocated d memory.buf memory.sem size ≡ fresh buf size
unfolding init_allocated fresh
allocated_lem d memory buf size e h = rw (e, h.0, h.1) refl

module _ (cells : ℕ → Datagram) (p q r : ℕ) (m1 m2 m3 : Memory) (b1 b2 b3 : List ℕ)
    (zp : cells p ≡ zeros) (zq : cells q ≡ zeros) (zr : cells r ≡ zeros) (h1 : Holds m1 b1)
    (h2 : Holds m2 b2) (h3 : Holds m3 b3) (pq : (p == q) ≡ false) (pr : (p == r) ≡ false)
    (qr : (q == r) ≡ false) where
  abbrev first : ℕ → Datagram
  first = store cells p (init_allocated (cells p) m1.buf m1.sem max_data_size)

  abbrev second : ℕ → Datagram
  second = store first q (init_allocated (first q) m2.buf m2.sem 8)

  abbrev third : ℕ → Datagram
  third = store second r (init_allocated (second r) m3.buf m3.sem 8)

  third_p : third p ≡ fresh b1 max_data_size
  third_p =
      store_other second r p _ (==_swap p r pr)
      ∙ store_other first q p _ (==_swap p q pq)
      ∙ store_same cells p _
      ∙ allocated_lem (cells p) m1 b1 max_data_size zp h1

  third_q : third q ≡ fresh b2 8
  third_q =
      store_other second r q _ (==_swap q r qr)
      ∙ store_same first q _
      ∙ allocated_lem (first q) m2 b2 8 (store_other cells p q _ pq ∙ zq) h2

  third_r : third r ≡ fresh b3 8
  third_r =
      store_same second r _
      ∙ allocated_lem (second r) m3 b3 8
          (store_other first q r _ qr ∙ store_other cells p r _ pr ∙ zr) h3

  third_lem : (third p ≡ fresh b1 max_data_size) × (third q ≡ fresh b2 8) × (third r ≡ fresh b3 8)
  third_lem = (third_p, third_q, third_r)

-- What is left when all is given, with the thread running.
abbrev complete : Resources → Places → Control → Control
complete res at c =
    enter_idle (record (init_datagrams res at (cleared at c)) { nonperiod_runs = true })

abbrev all_places : Places → Control → List ℕ
all_places at c =
    at.main_datagram ∷ c.pdo_datagram ∷ at.dc_ref_sync_datagram ∷ at.dc_all_sync_datagram ∷ []

module _ (res : Resources) (at : Places) (c : Control) (b1 b2 b3 : List ℕ)
    (g : AllGiven res b1 b2 b3) (apart : Apart at) where
  zeroed : (q : ℕ) → contains q (all_places at c) ≡ true → (cleared at c).master.cells q ≡ zeros
  unfolding cleared
  zeroed q h = put_zeros_lem (all_places at c) c.master.cells q (inl h)

  complete-Fresh : c.timer ≡ none → Fresh at b1 b2 b3 (complete res at c)
  unfolding init_datagrams
  complete-Fresh timer =
      let (m, r, a) =
        third_lem (cleared at c).master.cells at.main_datagram at.dc_ref_sync_datagram
          at.dc_all_sync_datagram res.main res.dc_ref_sync res.dc_all_sync b1 b2 b3
          (zeroed at.main_datagram (ground arith)) (zeroed at.dc_ref_sync_datagram (ground arith))
          (zeroed at.dc_all_sync_datagram (ground arith)) g.main g.dc_ref_sync g.dc_all_sync apart.0
          apart.1 apart.2 in
      record {
        at_rest = unfold cleared enter_idle in (refl, (refl, (refl, timer)));
        queue = unfold cleared enter_idle in refl;
        datagram_index = unfold cleared enter_idle in refl;
        slave_count = unfold cleared enter_idle in refl;
        main = unfold enter_idle in m;
        dc_ref_sync = unfold enter_idle in r;
        dc_all_sync = unfold enter_idle in a;
      }

-- ec_master_init returns 0 if the clock runs and every device, memory and object of the operating
-- system is given. If no timer ran before and the datagrams lie apart, it leaves the master at rest,
-- without slaves and with an empty queue, and the datagrams in their initial state with their memory.
-- Whatever cycle the application then sets and whatever calls of ec_master_start and ec_master_stop
-- follow, once they have ended the flag, the phase, the timer and the thread agree.
pub init-Fresh :
    (res : Resources) (at : Places) (c : Control) (b1 b2 b3 : List ℕ) (cycle shift : ℕ)
    (ks : List Call)
    → AllGiven res b1 b2 b3
    → Apart at
    → clock_runs c ≡ true
    → c.timer ≡ none
    → Ready
        (λ c'. Fresh at b1 b2 b3 c' × After Phased (run ks (set_cycle cycle shift c')))
        (init res at c)
unfolding init create Phased
init-Fresh res at c b1 b2 b3 cycle shift ks g apart clock timer =
    let f = complete-Fresh res at c b1 b2 b3 g apart timer in
    rw
      (
        clock, g.netdevs, g.scan_lock, g.nonperiod_sem, g.nonperiod_thread, g.scan_thread,
        g.linkdetect_timer,
      )
      (f, run-Phased ks (set_cycle cycle shift (complete res at c)) (inr f.at_rest))
