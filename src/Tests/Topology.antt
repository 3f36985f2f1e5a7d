-- ===== src/Tests/Topology.antt =====
-- Runs of the topology and the delays of src/ec_slave.c on a bus of three slaves: the first has the
-- second at port 1 and the third at port 2, and all but the second have distributed clocks.
use cherry_ecat.Prelude.{
  ◌<◌, ◌≡◌, refl, true, false, List, [], ◌∷◌, ℕ, some, none, u32_mod, sub_mod, arith, map,
  if◌then◌else◌, ◌==◌, not, Bool, ◌||◌, ◌&&◌, ◌*◌, ◌%◌, ◌+◌,
}
use cherry_ecat.Slave.Topology.{visits, Port, Node, Bus, calc_topology}
use cherry_ecat.Slave.Topology.Tree.{MakesTree, calc_topology-MakesTree}
use cherry_ecat.Slave.Delays.{Clocks, DcOutcome, calc_dc, calc_rtt_sum}
use cherry_ecat.Slave.Delays.RoundTrip.{calc_rtt_sum_lem}
use cherry_ecat.Slave.Delays.Settled.{Settled, calc_dc-Settled}
use cherry_ecat.Tests.Queue.{read_two}

abbrev port : Bool → ℕ → Port
port closed t = record {
  loop_closed = closed;
  next_slave = none;
  receive_time = t;
  delay_to_next_dc = 0;
}

abbrev node : ℕ → Node
node q = record {
  ports = λ p.
      port (not (q == 0 && (p == 1 || p == 2)))
        (if q == 0 then 1000 * p else if p == 2 then 300 else 0);
  station_address = 0x1001 + q;
  base_dc_supported = not (q == 1);
  base_dc_64 = true;
  transmission_delay = 7;
}

abbrev three : Bus
three = record { nodes = node; slave_count = 3 }

abbrev pub clocks : Clocks
clocks = record { bus = three; dc_ref_clock = none; dc_ref_sync = read_two; dc_all_sync = read_two }

calc_topology-MakesTree_example : MakesTree 3 (calc_topology 3 three none 0)
calc_topology-MakesTree_example =
    calc_topology-MakesTree 3 three (omega arith) (omega arith) (λ q p z. refl)

calc_dc-Settled_example : Settled 3 (calc_dc 3 clocks)
calc_dc-Settled_example = calc_dc-Settled 3 clocks (omega arith) (omega arith) (λ q p z. refl)

-- The transmission delays that a run ends with.
delays_of : DcOutcome → List ℕ
delays_of (DcOutcome.clocks c) = map (λ q. (c.bus.nodes q).transmission_delay) (0 ∷ 1 ∷ 2 ∷ [])
delays_of _ = []

delays_run : delays_of (calc_dc 3 clocks) ≡ 0 ∷ 7 ∷ 500 ∷ []
unfolding delays_of calc_dc visits
delays_run = refl

abbrev linked : ℕ → Port
linked p = record (port false (4294967000 * p % u32_mod)) {
  next_slave = if p == 3 then none else some 1;
}

linked_times : (p : ℕ) → (linked p).receive_time < u32_mod
linked_times p = omega arith

calc_rtt_sum_lem_example : calc_rtt_sum linked ≡ some (sub_mod u32_mod (4294967000 * 2 % u32_mod) 0)
calc_rtt_sum_lem_example = calc_rtt_sum_lem linked linked_times
