-- ===== src/Slave/Topology/Tree.antt =====
-- src/ec_slave.c, ec_master_calc_topology: the links that it makes form a tree.
use cherry_ecat.Prelude.{
  suc, zero, Option-cases, ℕ, zero, suc, ◌<◌, ◌≤◌, ◌+◌, ◌≡◌, refl, arith, Option, none, some, List,
  [], ◌∷◌, false, ◌==◌, ltb, Bool-cases, inl, inr, ltb→lt, ◌∙◌,
}
use cherry_ecat.Slave.Topology.{Bus, next_of, link, Outcome, and_then, link_ports, calc_topology}
use cherry_ecat.Master.{contains}

-- The slaves before position `k` are a tree: a port that is not port 0 leads only to a later one of
-- them, whose port 0 leads back, and each but the first is behind such a port.
pub record IsTree (b : Bus) (k : ℕ) : Type 0 where
  pub links :
      (q p r : ℕ)
      → (p == 0) ≡ false
      → next_of b q p ≡ some r
      → (q < r) × (r < k) × (next_of b r 0 ≡ some q)
  pub placed :
      (r : ℕ) → 0 < r → r < k → (q : ℕ) × (p : ℕ) × ((p == 0) ≡ false) × (next_of b q p ≡ some r)

-- The links of one child: to slave `k` and back.
abbrev attach : Bus → ℕ → ℕ → ℕ → Bus
attach b q p k = link (link b q p (some k)) k 0 (some q)

attach-links :
    (b : Bus) (q p k : ℕ)
    → q < k
    → (p == 0) ≡ false
    → IsTree b k
    → (s i r : ℕ) → (i == 0) ≡ false
    → next_of (attach b q p k) s i ≡ some r
    → (s < r) × (r < k + 1) × (next_of (attach b q p k) r 0 ≡ some s)
attach-links b q p k lt z t s i r iz e = ground (arith, t.links s i r iz)

attach-placed :
    (b : Bus) (q p k : ℕ)
    → q < k
    → (p == 0) ≡ false
    → next_of b q p ≡ none
    → IsTree b k
    → (r : ℕ) → 0 < r
    → r < k + 1
    → (s : ℕ) × (i : ℕ) × ((i == 0) ≡ false) × (next_of (attach b q p k) s i ≡ some r)
attach-placed b q p k lt z free t r pos below = elim (Bool-cases (r == k)) [
  | inl e ↦ (q, p, z, ground arith)
  | inr e ↦ let (s, i, iz, old) = t.placed r pos (ground arith) in (s, i, iz, ground arith)
]

attach-IsTree :
    (b : Bus) (q p k : ℕ)
    → q < k
    → (p == 0) ≡ false
    → next_of b q p ≡ none
    → IsTree b k
    → IsTree (attach b q p k) (k + 1)
attach-IsTree b q p k lt z free t = record {
  links = attach-links b q p k lt z t;
  placed = attach-placed b q p k lt z free t;
}

-- A call that began at slave `q`, with slaves up to `pos` in the tree, ends; if it succeeds, it has
-- added slaves up to `k` to the tree, and left the links of the slaves before `q` as they were.
abbrev Grows : Bus → ℕ → ℕ → Outcome → Type 0
Grows bus q pos (Outcome.linked b k) =
    IsTree b (k + 1)
    × (pos ≤ k)
    × (k < b.slave_count)
    × (b.slave_count ≡ bus.slave_count)
    × ((s p : ℕ) → s < q → (p == 0) ≡ false → next_of b s p ≡ next_of bus s p)
Grows bus q pos Outcome.failed = Unit
Grows bus q pos Outcome.endless = ⊥

Grows-trans :
    (bus b : Bus) (q k pos n : ℕ) (o : Outcome)
    → pos ≤ n
    → b.slave_count ≡ bus.slave_count
    → ((s p : ℕ) → s < q → (p == 0) ≡ false → next_of b s p ≡ next_of bus s p)
    → Grows b q n o
    → Grows bus q pos o
Grows-trans bus b q k pos n (Outcome.linked c m) le e same (t, le', lt, e', same') =
    (t, omega arith, lt, e' ∙ e, λ s p h z. same' s p h z ∙ same s p h z)
Grows-trans bus b q k pos n Outcome.failed le e same g = tt
Grows-trans bus b q k pos n Outcome.endless le e same g = g

-- The ports that the loop still has to look at lead nowhere.
abbrev Free : Bus → ℕ → List ℕ → Type 0
Free bus q [] = Unit
Free bus q (p ∷ ps) =
    ((p == 0) ≡ false) × (next_of bus q p ≡ none) × (contains p ps ≡ false) × Free bus q ps

Free-keep :
    (bus b : Bus) (q p : ℕ) (ps : List ℕ)
    → contains p ps ≡ false
    → ((i : ℕ) → (i == p) ≡ false → (i == 0) ≡ false → next_of b q i ≡ next_of bus q i)
    → Free bus q ps
    → Free b q ps
Free-keep bus b q p [] new same f = tt
Free-keep bus b q p (i ∷ ps) new same f =
    (f.0, same i (ground arith) f.0 ∙ f.1, f.2, Free-keep bus b q p ps (ground arith) same f.3)

-- What the call of itself is known to do.
abbrev CallGrows : ℕ → (Bus → ℕ → ℕ → Outcome) → Type 0
CallGrows fuel rec =
    (b : Bus) (s k : ℕ)
    → b.slave_count ≤ fuel + k
    → k < b.slave_count
    → IsTree (link b k 0 (some s)) (k + 1)
    → Grows (link b k 0 (some s)) k k (rec b s k)

Grows-then :
    (base bus : Bus) (q k pos : ℕ) (r : Outcome) (f : Bus → ℕ → Outcome)
    → Grows base k k r
    → ((b : Bus) (m : ℕ) → Grows base k k (Outcome.linked b m) → Grows bus q pos (f b m))
    → Grows bus q pos (and_then r f)
Grows-then base bus q k pos (Outcome.linked b m) f g go = go b m g
Grows-then base bus q k pos Outcome.failed f g go = tt
Grows-then base bus q k pos Outcome.endless f g go = absurd g

link_ports-Grows :
    (fuel : ℕ) (rec : Bus → ℕ → ℕ → Outcome) (bus : Bus) (q : ℕ) (ps : List ℕ) (pos : ℕ)
    → CallGrows fuel rec
    → bus.slave_count ≤ fuel + (pos + 1)
    → pos < bus.slave_count
    → q ≤ pos
    → Free bus q ps
    → IsTree bus (pos + 1)
    → Grows bus q pos (link_ports rec bus q ps pos)
unfolding link_ports
link_ports-Grows fuel rec bus q [] pos ok enough lt le f t =
    (t, omega arith, lt, refl, λ s p h z. refl)
link_ports-Grows fuel rec bus q (p ∷ ps) pos ok enough lt le f t =
    elim (Bool-cases ((bus.nodes q).ports p).loop_closed) [
      | inl closed ↦ rw closed (link_ports-Grows fuel rec bus q ps pos ok enough lt le f.3 t)
      | inr open_port ↦ elim (Bool-cases (ltb (pos + 1) bus.slave_count)) [
        | inr all_used ↦ rw (open_port, all_used) tt
        | inl more ↦
            let k = pos + 1 in
            let base = attach bus q p k in
            rw (open_port, more)
              (Grows-then base bus q k pos (rec (link bus q p (some k)) q k) _
                (ok (link bus q p (some k)) q k enough (ltb→lt k bus.slave_count more)
                  (attach-IsTree bus q p k (omega arith) f.0 f.1 t))
                λ b m g.
                  Grows-trans bus b q k pos m (link_ports rec b q ps m) (omega (arith, g.1)) g.3
                    (λ s i h z. g.4 s i (omega arith) z ∙ ground arith)
                    (link_ports-Grows fuel rec b q ps m ok (omega (arith, g.1, g.3)) g.2
                      (omega (arith, g.1))
                      (Free-keep bus b q p ps f.2 (λ i n z. g.4 q i (omega arith) z ∙ ground arith)
                        f.3)
                      g.0))
      ]
    ]

-- The newest slave of a tree has no children yet.
leaf : (b : Bus) (q p : ℕ) → (p == 0) ≡ false → IsTree b (q + 1) → next_of b q p ≡ none
leaf b q p z t = elim (Option-cases (next_of b q p)) [
  | inl e ↦ e
  | inr (r, e) ↦ absurd (omega (arith, t.links q p r z e))
]

calc_topology-Grows :
    (fuel : ℕ) (bus : Bus) (port0_slave : Option ℕ) (pos : ℕ)
    → bus.slave_count ≤ fuel + pos
    → pos < bus.slave_count
    → IsTree (link bus pos 0 port0_slave) (pos + 1)
    → Grows (link bus pos 0 port0_slave) pos pos (calc_topology fuel bus port0_slave pos)
unfolding calc_topology
calc_topology-Grows zero bus port0_slave pos enough lt t = absurd (omega arith)
calc_topology-Grows (suc fuel) bus port0_slave pos enough lt t =
    let b = link bus pos 0 port0_slave in
    link_ports-Grows fuel (λ c s k. calc_topology fuel c (some s) k) b pos (3 ∷ 1 ∷ 2 ∷ []) pos
      (λ c s k e l u. calc_topology-Grows fuel c (some s) k e l u) (omega arith) lt (omega arith)
      (
        refl,
        leaf b pos 3 refl t,
        refl,
        (refl, leaf b pos 1 refl t, refl, (refl, leaf b pos 2 refl t, refl, tt)),
      )
      t

-- What the call for the whole bus comes to.
abbrev pub MakesTree : ℕ → Outcome → Type 0
MakesTree n (Outcome.linked b k) = (k < n) × (b.slave_count ≡ n) × IsTree b (k + 1)
MakesTree n Outcome.failed = Unit
MakesTree n Outcome.endless = ⊥

MakesTree-Grows : (bus : Bus) (o : Outcome) → Grows bus 0 0 o → MakesTree bus.slave_count o
MakesTree-Grows bus (Outcome.linked b k) g = (omega (arith, g.2, g.3), g.3, g.0)
MakesTree-Grows bus Outcome.failed g = tt
MakesTree-Grows bus Outcome.endless g = g

alone :
    (bus : Bus)
    → ((q p : ℕ) → (p == 0) ≡ false → next_of bus q p ≡ none)
    → IsTree (link bus 0 0 none) 1
alone bus free = record {
  links = λ q p r z e. ground (arith, free q p);
  placed = λ r pos below. absurd (omega arith);
}

-- ec_master_calc_topology, called for the first slave of a bus whose ports 1 to 3 lead nowhere yet,
-- makes at most as many nested calls as there are slaves and ends. It returns -1, or the slaves up
-- to the position that it has reached, which is one of the bus, are a tree: every link of a port 1
-- to 3 leads to a later one of them, whose port 0 leads back, and each of them but the first is
-- behind such a link.
pub calc_topology-MakesTree :
    (fuel : ℕ) (bus : Bus)
    → 0 < bus.slave_count
    → bus.slave_count ≤ fuel
    → ((q p : ℕ) → (p == 0) ≡ false → next_of bus q p ≡ none)
    → MakesTree bus.slave_count (calc_topology fuel bus none 0)
calc_topology-MakesTree fuel bus some_slave enough free =
    MakesTree-Grows (link bus 0 0 none) (calc_topology fuel bus none 0)
      (calc_topology-Grows fuel bus none 0 (omega arith) some_slave (alone bus free))
