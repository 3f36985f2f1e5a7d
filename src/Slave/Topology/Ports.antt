-- ===== src/Slave/Topology/Ports.antt =====
-- The walks of src/ec_slave.c from port to port of a slave, ec_slave_get_next_port and
-- ec_slave_get_previous_port: the order of the linked ports.
use cherry_ecat.Prelude.{
  Gets, zero, suc, ◌==◌, false, ℕ, ◌≡◌, arith, some, List, [], ◌∷◌, if◌then◌else◌,
}
use cherry_ecat.Slave.Topology.{Port, is_linked, prev_table, seek, visits}

-- The linked ones of the ports.
abbrev pub linked_of : (ℕ → Port) → List ℕ → List ℕ
linked_of ports [] = []
linked_of ports (p ∷ ps) = if is_linked ports p then p ∷ linked_of ports ps else linked_of ports ps

-- The first of some ports that is linked, or 0.
abbrev pub first_linked : (ℕ → Port) → List ℕ → ℕ
first_linked ports [] = 0
first_linked ports (p ∷ ps) = if is_linked ports p then p else first_linked ports ps

pub visits_lem : (ports : ℕ → Port) → visits 4 ports 0 ≡ some (linked_of ports (3 ∷ 1 ∷ 2 ∷ []))
unfolding visits seek
visits_lem ports = ground arith

pub seek_prev :
    (ports : ℕ → Port)
    → (seek 4 prev_table ports 3 ≡ some 0)
      × (seek 4 prev_table ports 1 ≡ some (first_linked ports (3 ∷ [])))
      × (seek 4 prev_table ports 2 ≡ some (first_linked ports (1 ∷ 3 ∷ [])))
unfolding seek
seek_prev ports = ground arith

-- Four rounds are enough from every port.
pub seek_ends : (ports : ℕ → Port) (p : ℕ) → Gets (λ q. Unit) (seek 4 prev_table ports p)
unfolding seek
seek_ends ports zero = ground arith
seek_ends ports (suc zero) = ground arith
seek_ends ports (suc (suc zero)) = ground arith
seek_ends ports (suc (suc (suc zero))) = ground arith
seek_ends ports (suc (suc (suc (suc p)))) = ground arith

abbrev pub NonZero : List ℕ → Type 0
NonZero [] = Unit
NonZero (p ∷ ps) = ((p == 0) ≡ false) × NonZero ps

pub NonZero-linked_of : (ports : ℕ → Port) (ps : List ℕ) → NonZero ps → NonZero (linked_of ports ps)
NonZero-linked_of ports [] z = tt
NonZero-linked_of ports (p ∷ ps) z = ground (arith, NonZero-linked_of ports ps z.1)
