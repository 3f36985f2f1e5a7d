-- ===== src/Slave/Delays.antt =====
-- src/ec_slave.c: the delays between slaves with distributed clocks, measured by the times at which
-- a frame passed their ports. Differences of times are 32-bit. `none` means that the fuel, a bound
-- on the depth of the tree, ran out; the walks over the ports of one slave have enough.
pub mod Ends
pub mod RoundTrip
pub mod Settled
use cherry_ecat.Prelude.{
  ℕ, zero, suc, ◌+◌, ◌%◌, ◌/◌, Option, none, some, List, [], ◌∷◌, if◌then◌else◌, u32_mod, sub_mod,
}
use cherry_ecat.Datagram.{Datagram}
use cherry_ecat.Datagram.Fill.{fpwr, frmw}
use cherry_ecat.Slave.Topology.{
  Port, Bus, edit_node, edit_port, next_of, prev_table, seek, visits, Outcome, calc_topology,
}

infixl 5 ◌>>=◌
abbrev pub ◌>>=◌ : {A B : Type 0} → Option A → (A → Option B) → Option B
none >>= f = none
some a >>= f = f a

-- for each element in turn
unfoldable pub fold : {S : Type 0} → (S → ℕ → Option S) → S → List ℕ → Option S
fold f s [] = some s
fold f s (p ∷ ps) = f s p >>= λ s'. fold f s' ps

-- receive_time of port `p` less that of the linked port before it
unfoldable pub port_rtt : (ℕ → Port) → ℕ → Option ℕ
port_rtt ports p = seek 4 prev_table ports p >>= λ prev.
    some (sub_mod u32_mod (ports p).receive_time (ports prev).receive_time)

-- ec_slave_calc_rtt_sum
unfoldable pub calc_rtt_sum : (ℕ → Port) → Option ℕ
unfolding port_rtt fold
calc_rtt_sum ports =
    visits 4 ports 0 >>= fold (λ sum p. port_rtt ports p >>= λ rtt. some ((sum + rtt) % u32_mod)) 0

-- The loop of ec_slave_find_next_dc_slave; `rec` is the call of itself.
unfoldable pub find_behind : (ℕ → Option (Option ℕ)) → Bus → ℕ → List ℕ → Option (Option ℕ)
find_behind rec bus q [] = some none
find_behind rec bus q (p ∷ ps) = elim (next_of bus q p) [
  | none ↦ find_behind rec bus q ps
  | some next ↦
      rec next >>= λ found. elim found [ some d ↦ some (some d) | none ↦ find_behind rec bus q ps ]
]

-- ec_slave_find_next_dc_slave
unfoldable pub find_next_dc_slave : ℕ → Bus → ℕ → Option (Option ℕ)
unfolding find_behind
find_next_dc_slave zero bus q = none
find_next_dc_slave (suc fuel) bus q =
    let behind =
      visits 4 (bus.nodes q).ports 0 >>= find_behind (find_next_dc_slave fuel bus) bus q in
    if (bus.nodes q).base_dc_supported then some (some q) else behind

-- ec_slave_find_next_dc_slave of the slave at port `p`
unfoldable pub dc_behind : ℕ → Bus → ℕ → ℕ → Option (Option ℕ)
unfolding find_next_dc_slave
dc_behind fuel bus q p = elim (next_of bus q p) [
  | none ↦ some none
  | some next ↦ find_next_dc_slave fuel bus next
]

-- `if (next_dc) { ... }`
abbrev pub if_some : {S : Type 0} → Option ℕ → S → (ℕ → Option S) → Option S
if_some none s f = some s
if_some (some d) s f = f d

-- The body of the loop of ec_slave_calc_port_delays.
unfoldable pub calc_port_delay : ℕ → ℕ → Bus → ℕ → Option Bus
unfolding dc_behind calc_rtt_sum
calc_port_delay fuel q bus p = dc_behind fuel bus q p >>= λ next_dc. if_some next_dc bus λ d.
    port_rtt (bus.nodes q).ports p >>= λ rtt. calc_rtt_sum (bus.nodes d).ports >>= λ next_rtt_sum.
    let delay = sub_mod u32_mod rtt next_rtt_sum / 2 in
    let bus1 = edit_port bus q p λ t. record t { delay_to_next_dc = delay } in
    some (edit_port bus1 d 0 λ t. record t { delay_to_next_dc = delay })

-- ec_slave_calc_port_delays
unfoldable pub calc_port_delays : ℕ → Bus → ℕ → Option Bus
unfolding calc_port_delay
calc_port_delays fuel bus q =
    if (bus.nodes q).base_dc_supported
    then visits 4 (bus.nodes q).ports 0 >>= fold (calc_port_delay fuel q) bus
    else some bus

-- The body of the loop of ec_slave_calc_transmission_delays; `rec` is the call of itself.
unfoldable pub transmit_behind :
    ℕ → (Bus → ℕ → ℕ → Option (Bus × ℕ)) → ℕ → Bus × ℕ → ℕ → Option (Bus × ℕ)
unfolding dc_behind
transmit_behind fuel rec q (bus, delay) p = dc_behind fuel bus q p >>= λ next_dc.
    if_some next_dc (bus, delay)
      λ d. rec bus d ((delay + ((bus.nodes q).ports p).delay_to_next_dc) % u32_mod)

-- ec_slave_calc_transmission_delays
unfoldable pub calc_transmission_delays : ℕ → Bus → ℕ → ℕ → Option (Bus × ℕ)
unfolding transmit_behind
calc_transmission_delays zero bus q delay = none
calc_transmission_delays (suc fuel) bus q delay =
    let bus1 = edit_node bus q λ s. record s { transmission_delay = delay } in
    visits 4 (bus1.nodes q).ports 0 >>= λ ps.
    fold (transmit_behind (suc fuel) (calc_transmission_delays fuel) q) (bus1, delay) ps >>= λ r.
    some (r.0, (r.1 + ((r.0.nodes q).ports 0).delay_to_next_dc) % u32_mod)

-- The loop of ec_master_find_dc_ref_clock, over the positions from `q` on.
unfoldable pub find_dc_ref_clock : ℕ → Bus → ℕ → Option ℕ
find_dc_ref_clock zero bus q = none
find_dc_ref_clock (suc left) bus q =
    let rest = find_dc_ref_clock left bus (q + 1) in
    if (bus.nodes q).base_dc_supported then some q else rest

-- The bus with what the master keeps of its distributed clocks: the reference clock, and the
-- datagrams that read and spread its time.
pub record Clocks : Type 0 where
  pub bus : Bus
  pub dc_ref_clock : Option ℕ
  pub dc_ref_sync : Datagram
  pub dc_all_sync : Datagram

-- `ref ? ref->station_address : 0xffff`, and the size of the system time
abbrev pub ref_address : Bus → Option ℕ → ℕ
ref_address bus none = 0xffff
ref_address bus (some r) = (bus.nodes r).station_address

abbrev pub ref_size : Bus → Option ℕ → ℕ
ref_size bus none = 4
ref_size bus (some r) = if (bus.nodes r).base_dc_64 then 8 else 4

-- ec_master_find_dc_ref_clock
unfoldable pub set_dc_ref_clock : Clocks → Clocks
unfolding find_dc_ref_clock
set_dc_ref_clock c =
    let ref = find_dc_ref_clock c.bus.slave_count c.bus 0 in
    record {
      bus = c.bus;
      dc_ref_clock = ref;
      dc_ref_sync = fpwr c.dc_ref_sync (ref_address c.bus ref) 0x910 (ref_size c.bus ref);
      dc_all_sync = frmw c.dc_all_sync (ref_address c.bus ref) 0x910 (ref_size c.bus ref);
    }

-- The loop of ec_master_calc_transmission_delays over all slaves, from position `q` on.
unfoldable pub all_port_delays : ℕ → ℕ → Bus → ℕ → Option Bus
unfolding calc_port_delays
all_port_delays fuel zero bus q = some bus
all_port_delays fuel (suc left) bus q =
    calc_port_delays fuel bus q >>= λ b. all_port_delays fuel left b (q + 1)

-- ec_master_calc_transmission_delays
unfoldable pub all_delays : ℕ → Bus → Option ℕ → Option Bus
unfolding all_port_delays calc_transmission_delays
all_delays fuel bus ref = all_port_delays fuel bus.slave_count bus 0 >>= λ b. elim ref [
  | none ↦ some b
  | some r ↦ calc_transmission_delays fuel b r 0 >>= λ t. some t.0
]

-- ec_master_calc_dc ends, stops at the failed assertion that there is a topology, or needs more fuel.
pub data DcOutcome : Type 0 where
  clocks : Clocks → DcOutcome
  asserted endless : DcOutcome

abbrev pub put_bus : Clocks → Option Bus → DcOutcome
put_bus c none = DcOutcome.endless
put_bus c (some b) = DcOutcome.clocks (record c { bus = b })

-- What follows the call of ec_master_calc_topology, whose success is asserted.
unfoldable pub on_topology : ℕ → Clocks → Outcome → DcOutcome
unfolding all_delays
on_topology fuel c (Outcome.linked bus pos) = put_bus c (all_delays fuel bus c.dc_ref_clock)
on_topology fuel c Outcome.failed = DcOutcome.asserted
on_topology fuel c Outcome.endless = DcOutcome.endless

-- ec_master_calc_dc
unfoldable pub calc_dc : ℕ → Clocks → DcOutcome
unfolding set_dc_ref_clock calc_topology on_topology
calc_dc fuel c =
    let c1 = set_dc_ref_clock c in on_topology fuel c1 (calc_topology fuel c1.bus none 0)
