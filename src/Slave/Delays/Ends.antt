-- ===== src/Slave/Delays/Ends.antt =====
-- src/ec_slave.c, ec_master_calc_dc: on the links that ec_master_calc_topology makes, the searches
-- and sums over the tree end.
use cherry_ecat.Prelude.{
  ℕ, zero, suc, ◌<◌, ◌≤◌, ◌≡◌, refl, arith, Option, some, none, List, [], ◌∷◌, false, Bool-cases,
  inl, inr, ◌+◌, Gets, ◌==◌, Option-cases,
}
use cherry_ecat.Slave.Topology.{Bus, Port, visits, seek, prev_table, next_of}
use cherry_ecat.Slave.Topology.Ports.{visits_lem, seek_ends, NonZero, NonZero-linked_of}
use cherry_ecat.Slave.Delays.{
  calc_rtt_sum, port_rtt, fold, ◌>>=◌, find_behind, find_next_dc_slave, dc_behind,
}

-- Links lead to later slaves of the bus.
abbrev pub LeadsOn : ℕ → Bus → Type 0
LeadsOn n b = (q p r : ℕ) → (p == 0) ≡ false → next_of b q p ≡ some r → (q < r) × (r < n)

pub Gets-bind :
    {A B : Type 0} (P : A → Type 0) (Q : B → Type 0) (o : Option A) (f : A → Option B)
    → Gets P o
    → ((a : A) → P a → Gets Q (f a))
    → Gets Q (o >>= f)
Gets-bind P Q none f h g = absurd h
Gets-bind P Q (some a) f h g = g a h

pub Gets-fold :
    {S : Type 0} (P : S → Type 0) (f : S → ℕ → Option S) (s : S) (ps : List ℕ)
    → NonZero ps
    → ((t : S) (p : ℕ) → (p == 0) ≡ false → P t → Gets P (f t p))
    → P s
    → Gets P (fold f s ps)
unfolding fold
Gets-fold P f s [] z keep h = h
Gets-fold P f s (p ∷ ps) z keep h =
    Gets-bind P P (f s p) (λ t. fold f t ps) (keep s p z.0 h) (λ t k. Gets-fold P f t ps z.1 keep k)

-- The ports that a loop visits.
pub visits-NonZero : (ports : ℕ → Port) → Gets NonZero (visits 4 ports 0)
visits-NonZero ports =
    rw (visits_lem ports, Gets)
      (NonZero-linked_of ports (3 ∷ 1 ∷ 2 ∷ []) (refl, (refl, (refl, tt))))

pub port_rtt-Gets : (ports : ℕ → Port) (p : ℕ) → Gets (λ r. Unit) (port_rtt ports p)
unfolding port_rtt
port_rtt-Gets ports p =
    Gets-bind (λ q. Unit) (λ r. Unit) (seek 4 prev_table ports p) _ (seek_ends ports p) (λ q h. tt)

pub calc_rtt_sum-Gets : (ports : ℕ → Port) → Gets (λ r. Unit) (calc_rtt_sum ports)
unfolding calc_rtt_sum
calc_rtt_sum-Gets ports =
    Gets-bind NonZero (λ r. Unit) (visits 4 ports 0) _ (visits-NonZero ports)
      λ ps z.
        Gets-fold (λ r. Unit) _ 0 ps z
          (λ t p y h.
            Gets-bind (λ r. Unit) (λ r. Unit) (port_rtt ports p) _ (port_rtt-Gets ports p)
              (λ q k. tt))
          tt

-- A slave with distributed clocks that is found stands at or behind position `q`.
abbrev pub Found : ℕ → ℕ → Option ℕ → Type 0
Found n q none = Unit
Found n q (some d) = (q ≤ d) × (d < n)

Found-le : (n q k : ℕ) (o : Option ℕ) → q ≤ k → Found n k o → Found n q o
Found-le n q k none le h = tt
Found-le n q k (some d) le h = omega arith

pub Gets-weaken :
    {A : Type 0} (P Q : A → Type 0) (o : Option A) → ((a : A) → P a → Q a) → Gets P o → Gets Q o
Gets-weaken P Q none f h = absurd h
Gets-weaken P Q (some a) f h = f a h

Found-go :
    (n q r : ℕ) (rest : Option (Option ℕ))
    → q < r
    → Gets (Found n (q + 1)) rest
    → (o : Option ℕ) → Found n r o
    → Gets (Found n (q + 1)) (elim o [ some d ↦ some (some d) | none ↦ rest ])
Found-go n q r rest after h none k = h
Found-go n q r rest after h (some d) k = omega arith

find_behind-Found :
    (rec : ℕ → Option (Option ℕ)) (n : ℕ) (b : Bus) (q : ℕ) (ps : List ℕ)
    → LeadsOn n b
    → ((r : ℕ) → q < r → r < n → Gets (Found n r) (rec r))
    → NonZero ps
    → Gets (Found n (q + 1)) (find_behind rec b q ps)
unfolding find_behind
find_behind-Found rec n b q [] on ok z = tt
find_behind-Found rec n b q (p ∷ ps) on ok z = elim (Option-cases (next_of b q p)) [
  | inl e ↦ rw (e, find_behind) (find_behind-Found rec n b q ps on ok z.1)
  | inr (r, e) ↦
      let (after, below) = on q p r z.0 e in
      rw (e, find_behind)
        (Gets-bind (Found n r) (Found n (q + 1)) (rec r) _ (ok r after below) (
          Found-go n q r (find_behind rec b q ps) after (find_behind-Found rec n b q ps on ok z.1)))
]

find_next_dc_slave-Found :
    (fuel n : ℕ) (b : Bus) (q : ℕ)
    → LeadsOn n b
    → n ≤ fuel + q
    → q < n
    → Gets (Found n q) (find_next_dc_slave fuel b q)
unfolding find_next_dc_slave
find_next_dc_slave-Found zero n b q on enough lt = absurd (omega arith)
find_next_dc_slave-Found (suc fuel) n b q on enough lt =
    elim (Bool-cases (b.nodes q).base_dc_supported) [
      | inl e ↦ rw e (omega arith)
      | inr e ↦ rw e (
          Gets-bind NonZero (Found n q) (visits 4 (b.nodes q).ports 0) _
            (visits-NonZero (b.nodes q).ports)
            λ ps z.
              Gets-weaken (Found n (q + 1)) (Found n q)
                (find_behind (find_next_dc_slave fuel b) b q ps)
                (λ o. Found-le n q (q + 1) o (omega arith))
                (find_behind-Found (find_next_dc_slave fuel b) n b q ps on
                  (λ r after below. find_next_dc_slave-Found fuel n b r on (omega arith) below) z))
    ]

pub dc_behind-Found :
    (fuel n : ℕ) (b : Bus) (q p : ℕ)
    → LeadsOn n b
    → n ≤ fuel + q
    → (p == 0) ≡ false
    → Gets (Found n (q + 1)) (dc_behind fuel b q p)
unfolding dc_behind
dc_behind-Found fuel n b q p on enough z = elim (Option-cases (next_of b q p)) [
  | inl e ↦ rw (e, dc_behind) tt
  | inr (r, e) ↦
      let (after, below) = on q p r z e in
      rw (e, dc_behind)
        (Gets-weaken (Found n r) (Found n (q + 1)) (find_next_dc_slave fuel b r)
          (λ o. Found-le n (q + 1) r o (omega arith))
          (find_next_dc_slave-Found fuel n b r on (omega arith) below))
]
