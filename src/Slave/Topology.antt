-- ===== src/Slave/Topology.antt =====
-- src/ec_slave.c: the tree of the slaves that ec_master_calc_topology makes of their open ports, and
-- the walks from port to port in it. A slave is its position in the master's array; port 0 leads to
-- the parent, the ports 1 to 3 to children. The fields stand for those of ec_slave_t and
-- ec_slave_port_t that the links and the transmission delays depend on.
pub mod Ports
pub mod Tree
use cherry_ecat.Prelude.{
  ℕ, zero, suc, ◌+◌, Option, none, some, List, [], ◌∷◌, Bool, true, false, if◌then◌else◌, ◌==◌, ltb,
  get_or,
}

pub record Port : Type 0 where
  pub loop_closed : Bool
  pub next_slave : Option ℕ
  pub receive_time : ℕ
  pub delay_to_next_dc : ℕ

pub record Node : Type 0 where
  pub ports : ℕ → Port
  pub station_address : ℕ
  pub base_dc_supported : Bool
  pub base_dc_64 : Bool
  pub transmission_delay : ℕ

pub record Bus : Type 0 where
  pub nodes : ℕ → Node
  pub slave_count : ℕ

abbrev pub edit_node : Bus → ℕ → (Node → Node) → Bus
edit_node bus q f = record {
  nodes = λ r. if q == r then f (bus.nodes r) else bus.nodes r;
  slave_count = bus.slave_count;
}

abbrev pub edit_port : Bus → ℕ → ℕ → (Port → Port) → Bus
edit_port bus q p f =
    edit_node bus q λ s. record s { ports = λ i. if p == i then f (s.ports i) else s.ports i }

-- The field `next_slave` of a port, read and assigned.
abbrev pub next_of : Bus → ℕ → ℕ → Option ℕ
next_of bus q p = ((bus.nodes q).ports p).next_slave

abbrev pub link : Bus → ℕ → ℕ → Option ℕ → Bus
link bus q p s = edit_port bus q p λ t. record t { next_slave = s }

abbrev pub is_linked : (ℕ → Port) → ℕ → Bool
is_linked ports p = elim (ports p).next_slave [ none ↦ false | some r ↦ true ]

abbrev pub prev_table : List ℕ
prev_table = 2 ∷ 3 ∷ 1 ∷ 0 ∷ []

abbrev pub next_table : List ℕ
next_table = 3 ∷ 2 ∷ 0 ∷ 1 ∷ []

-- The loop of ec_slave_get_previous_port and of ec_slave_get_next_port, which follow a table to the
-- next linked port or to port 0; `none` when more rounds than the fuel are needed.
unfoldable pub seek : ℕ → List ℕ → (ℕ → Port) → ℕ → Option ℕ
seek zero table ports p = none
seek (suc fuel) table ports p =
    let p' = get_or table p 0 in
    let rest = seek fuel table ports p' in
    if is_linked ports p' then some p' else if p' == 0 then some 0 else rest

-- The ports at which a loop `p = ec_slave_get_next_port(slave, 0); while (p != 0) { ...;
-- p = ec_slave_get_next_port(slave, p); }` stops, which assigns no `next_slave`.
unfoldable pub visits : ℕ → (ℕ → Port) → ℕ → Option (List ℕ)
unfolding seek
visits zero ports p = none
visits (suc fuel) ports p = elim (seek 4 next_table ports p) [
  | none ↦ none
  | some p' ↦
      let rest = visits fuel ports p' in
      if p' == 0 then some [] else elim rest [ none ↦ none | some ps ↦ some (p' ∷ ps) ]
]

-- What ec_master_calc_topology returns: 0 with the position reached, -1, or nothing for want of fuel.
pub data Outcome : Type 0 where
  linked : Bus → ℕ → Outcome
  failed endless : Outcome

-- `ret = ...; if (ret) return ret;`
abbrev pub and_then : Outcome → (Bus → ℕ → Outcome) → Outcome
and_then (Outcome.linked bus pos) f = f bus pos
and_then Outcome.failed f = Outcome.failed
and_then Outcome.endless f = Outcome.endless

-- Its loop over the ports, which next_table leads from 3 over 1 and 2 to 0; `rec` is the call of
-- itself.
unfoldable pub link_ports : (Bus → ℕ → ℕ → Outcome) → Bus → ℕ → List ℕ → ℕ → Outcome
link_ports rec bus q [] pos = Outcome.linked bus pos
link_ports rec bus q (p ∷ ps) pos =
    if ((bus.nodes q).ports p).loop_closed
    then link_ports rec bus q ps pos
    else if ltb (pos + 1) bus.slave_count
    then and_then (rec (link bus q p (some (pos + 1))) q (pos + 1))
        (λ bus' pos'. link_ports rec bus' q ps pos')
    else Outcome.failed

-- ec_master_calc_topology
unfoldable pub calc_topology : ℕ → Bus → Option ℕ → ℕ → Outcome
unfolding link_ports
calc_topology zero bus port0_slave pos = Outcome.endless
calc_topology (suc fuel) bus port0_slave pos =
    link_ports (λ b q k. calc_topology fuel b (some q) k) (link bus pos 0 port0_slave) pos
      (3 ∷ 1 ∷ 2 ∷ []) pos
