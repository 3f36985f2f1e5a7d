-- ===== src/Slave/Delays/Settled.antt =====
-- src/ec_slave.c, ec_master_calc_dc as a whole ends.
use cherry_ecat.Prelude.{
  subst, ℕ, zero, suc, ◌<◌, ◌≤◌, ◌≡◌, arith, Option, some, none, u32_mod, sub_mod, false,
  Bool-cases, inl, inr, ◌+◌, Gets, Ends, ◌==◌, ◌/◌,
}
use cherry_ecat.Slave.Topology.{Outcome, calc_topology, next_of, Bus, visits, edit_port, edit_node}
use cherry_ecat.Slave.Topology.Ports.{NonZero}
use cherry_ecat.Slave.Topology.Tree.{MakesTree, calc_topology-MakesTree}
use cherry_ecat.Slave.Delays.{
  Clocks, set_dc_ref_clock, calc_dc, put_bus, on_topology, calc_rtt_sum, port_rtt, fold, if_some,
  find_dc_ref_clock, dc_behind, calc_port_delay, calc_port_delays, transmit_behind,
  calc_transmission_delays, all_port_delays, all_delays, DcOutcome,
}
use cherry_ecat.Slave.Delays.Ends.{
  LeadsOn, Gets-bind, Gets-fold, visits-NonZero, port_rtt-Gets, calc_rtt_sum-Gets, dc_behind-Found,
  Found,
}

-- Writing a delay changes no link.
LeadsOn-delay :
    (n : ℕ) (b : Bus) (q p v : ℕ)
    → LeadsOn n b
    → LeadsOn n (edit_port b q p λ t. record t { delay_to_next_dc = v })
LeadsOn-delay n b q p v on s i r z e = on s i r z (ground arith)

LeadsOn-transmission :
    (n : ℕ) (b : Bus) (q v : ℕ)
    → LeadsOn n b
    → LeadsOn n (edit_node b q λ s. record s { transmission_delay = v })
LeadsOn-transmission n b q v on s i r z e = on s i r z (ground arith)

Gets-if_some :
    {S : Type 0} (n q : ℕ) (P : S → Type 0) (o : Option ℕ) (s : S) (f : ℕ → Option S)
    → Found n (q + 1) o
    → P s
    → ((d : ℕ) → q < d → d < n → Gets P (f d))
    → Gets P (if_some o s f)
Gets-if_some n q P none s f found h g = h
Gets-if_some n q P (some d) s f found h g = g d (omega arith) (omega arith)

calc_port_delay-LeadsOn :
    (fuel n q : ℕ) (b : Bus) (p : ℕ)
    → n ≤ fuel + q
    → (p == 0) ≡ false
    → LeadsOn n b
    → Gets (LeadsOn n) (calc_port_delay fuel q b p)
unfolding calc_port_delay
calc_port_delay-LeadsOn fuel n q b p enough z on =
    Gets-bind (Found n (q + 1)) (LeadsOn n) (dc_behind fuel b q p) _
      (dc_behind-Found fuel n b q p on enough z)
      λ o found. Gets-if_some n q (LeadsOn n) o b _ found on λ d after below.
        Gets-bind (λ r. Unit) (LeadsOn n) (port_rtt (b.nodes q).ports p) _
          (port_rtt-Gets (b.nodes q).ports p)
          λ rtt h.
            Gets-bind (λ r. Unit) (LeadsOn n) (calc_rtt_sum (b.nodes d).ports) _
              (calc_rtt_sum-Gets (b.nodes d).ports)
              λ sum k.
                let v = sub_mod u32_mod rtt sum / 2 in
                LeadsOn-delay n (edit_port b q p λ t. record t { delay_to_next_dc = v }) d 0 v
                  (LeadsOn-delay n b q p v on)

calc_port_delays-LeadsOn :
    (fuel n : ℕ) (b : Bus) (q : ℕ)
    → n ≤ fuel + q
    → LeadsOn n b
    → Gets (LeadsOn n) (calc_port_delays fuel b q)
unfolding calc_port_delays
calc_port_delays-LeadsOn fuel n b q enough on = elim (Bool-cases (b.nodes q).base_dc_supported) [
  | inr e ↦ rw e on
  | inl e ↦ rw e (
      Gets-bind NonZero (LeadsOn n) (visits 4 (b.nodes q).ports 0) _
        (visits-NonZero (b.nodes q).ports)
        λ ps z.
          Gets-fold (LeadsOn n) (calc_port_delay fuel q) b ps z
            (λ c p y h. calc_port_delay-LeadsOn fuel n q c p enough y h) on)
]

all_port_delays-LeadsOn :
    (fuel n left : ℕ) (b : Bus) (q : ℕ)
    → n ≤ fuel
    → LeadsOn n b
    → Gets (LeadsOn n) (all_port_delays fuel left b q)
unfolding all_port_delays
all_port_delays-LeadsOn fuel n zero b q enough on = on
all_port_delays-LeadsOn fuel n (suc left) b q enough on =
    Gets-bind (LeadsOn n) (LeadsOn n) (calc_port_delays fuel b q) _
      (calc_port_delays-LeadsOn fuel n b q (omega arith) on)
      λ c h. all_port_delays-LeadsOn fuel n left c (q + 1) enough h

abbrev Delayed : ℕ → Bus × ℕ → Type 0
Delayed n r = LeadsOn n r.0

transmit_behind-Delayed :
    (fuel n : ℕ) (rec : Bus → ℕ → ℕ → Option (Bus × ℕ)) (q : ℕ) (r : Bus × ℕ) (p : ℕ)
    → ((b : Bus) (d v : ℕ) → q < d → d < n → LeadsOn n b → Gets (Delayed n) (rec b d v))
    → n ≤ fuel + q
    → (p == 0) ≡ false
    → Delayed n r
    → Gets (Delayed n) (transmit_behind fuel rec q r p)
unfolding transmit_behind
transmit_behind-Delayed fuel n rec q (b, delay) p ok enough z on =
    Gets-bind (Found n (q + 1)) (Delayed n) (dc_behind fuel b q p) _
      (dc_behind-Found fuel n b q p on enough z)
      λ o found.
        Gets-if_some n q (Delayed n) o (b, delay) _ found on
          λ d after below. ok b d _ after below on

calc_transmission_delays-Delayed :
    (fuel n : ℕ) (b : Bus) (q delay : ℕ)
    → n ≤ fuel + q
    → q < n
    → LeadsOn n b
    → Gets (Delayed n) (calc_transmission_delays fuel b q delay)
unfolding calc_transmission_delays
calc_transmission_delays-Delayed zero n b q delay enough lt on = absurd (omega arith)
calc_transmission_delays-Delayed (suc fuel) n b q delay enough lt on =
    let b1 = edit_node b q λ s. record s { transmission_delay = delay } in
    Gets-bind NonZero (Delayed n) (visits 4 (b1.nodes q).ports 0) _
      (visits-NonZero (b1.nodes q).ports)
      λ ps z.
        Gets-bind (Delayed n) (Delayed n)
          (fold (transmit_behind (suc fuel) (calc_transmission_delays fuel) q) (b1, delay) ps) _
          (Gets-fold (Delayed n) _ (b1, delay) ps z
            (λ r p y h.
              transmit_behind-Delayed (suc fuel) n (calc_transmission_delays fuel) q r p
                (λ c d v after below k.
                  calc_transmission_delays-Delayed fuel n c d v (omega arith) below k)
                enough y h)
            (LeadsOn-transmission n b q delay on))
          (λ r h. h)

Ends-shift :
    (left q : ℕ) (o : Option ℕ) → Ends (λ r. r < left + (q + 1)) o → Ends (λ r. r < suc left + q) o
Ends-shift left q none h = tt
Ends-shift left q (some r) h = omega arith

find_dc_ref_clock-lt :
    (left : ℕ) (b : Bus) (q : ℕ) → Ends (λ r. r < left + q) (find_dc_ref_clock left b q)
unfolding find_dc_ref_clock
find_dc_ref_clock-lt zero b q = tt
find_dc_ref_clock-lt (suc left) b q = elim (Bool-cases (b.nodes q).base_dc_supported) [
  | inl e ↦ rw e (omega arith)
  | inr e ↦
      rw e
        (Ends-shift left q (find_dc_ref_clock left b (q + 1)) (find_dc_ref_clock-lt left b (q + 1)))
]

all_delays-LeadsOn :
    (fuel n : ℕ) (b : Bus) (ref : Option ℕ)
    → n ≤ fuel
    → Ends (λ r. r < n) ref
    → LeadsOn n b
    → Gets (LeadsOn n) (all_delays fuel b ref)
unfolding all_delays
all_delays-LeadsOn fuel n b none enough lt on =
    Gets-bind (LeadsOn n) (LeadsOn n) (all_port_delays fuel b.slave_count b 0) _
      (all_port_delays-LeadsOn fuel n b.slave_count b 0 enough on) λ c h. h
all_delays-LeadsOn fuel n b (some r) enough lt on =
    Gets-bind (LeadsOn n) (LeadsOn n) (all_port_delays fuel b.slave_count b 0) _
      (all_port_delays-LeadsOn fuel n b.slave_count b 0 enough on)
      λ c h.
        Gets-bind (Delayed n) (LeadsOn n) (calc_transmission_delays fuel c r 0) _
          (calc_transmission_delays-Delayed fuel n c r 0 (omega arith) lt h) λ t k. k

-- What ec_master_calc_dc comes to, for a bus of `n` slaves.
abbrev pub Settled : ℕ → DcOutcome → Type 0
Settled n (DcOutcome.clocks c) = LeadsOn n c.bus × Ends (λ r. r < n) c.dc_ref_clock
Settled n DcOutcome.asserted = Unit
Settled n DcOutcome.endless = ⊥

put_bus-Settled :
    (n : ℕ) (c : Clocks) (o : Option Bus)
    → Ends (λ r. r < n) c.dc_ref_clock
    → Gets (LeadsOn n) o
    → Settled n (put_bus c o)
put_bus-Settled n c none ref h = h
put_bus-Settled n c (some b) ref h = (h, ref)

on_topology-Settled :
    (fuel n : ℕ) (c : Clocks) (o : Outcome)
    → n ≤ fuel
    → Ends (λ r. r < n) c.dc_ref_clock
    → MakesTree n o
    → Settled n (on_topology fuel c o)
unfolding on_topology
on_topology-Settled fuel n c (Outcome.linked b k) enough ref (below, same, t) =
    put_bus-Settled n c (all_delays fuel b c.dc_ref_clock) ref (
      all_delays-LeadsOn fuel n b c.dc_ref_clock enough ref
        λ q p r z e. omega (arith, t.links q p r z e))
on_topology-Settled fuel n c Outcome.failed enough ref h = tt
on_topology-Settled fuel n c Outcome.endless enough ref h = h

-- ec_master_calc_dc, on a bus of at least one slave whose ports 1 to 3 lead nowhere yet, ends or
-- stops at its assertion that there is a topology, with no walk deeper than the number of slaves.
-- If it ends, the links of the ports 1 to 3 lead to later slaves of the bus, and the reference
-- clock, if any, is a slave of the bus.
pub calc_dc-Settled :
    (fuel : ℕ) (c : Clocks)
    → 0 < c.bus.slave_count
    → c.bus.slave_count ≤ fuel
    → ((q p : ℕ) → (p == 0) ≡ false → next_of c.bus q p ≡ none)
    → Settled c.bus.slave_count (calc_dc fuel c)
unfolding calc_dc set_dc_ref_clock
calc_dc-Settled fuel c some_slave enough free =
    on_topology-Settled fuel c.bus.slave_count (set_dc_ref_clock c)
      (calc_topology fuel c.bus none 0) enough
      (subst (λ (k : ℕ). Ends (λ r. r < k) (find_dc_ref_clock c.bus.slave_count c.bus 0))
        (omega arith) (find_dc_ref_clock-lt c.bus.slave_count c.bus 0))
      (calc_topology-MakesTree fuel c.bus some_slave enough free)
