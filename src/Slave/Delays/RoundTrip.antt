-- ===== src/Slave/Delays/RoundTrip.antt =====
-- src/ec_slave.c, ec_slave_calc_rtt_sum: the sum of the round-trip times in closed form.
use cherry_ecat.Prelude.{ℕ, ◌<◌, ◌≡◌, arith, some, [], ◌∷◌, u32_mod, sub_mod}
use cherry_ecat.Slave.Topology.{Port}
use cherry_ecat.Slave.Topology.Ports.{linked_of, visits_lem, seek_prev}
use cherry_ecat.Slave.Delays.{calc_rtt_sum, port_rtt, fold}
use cherry_ecat.Lists.Ring.{last}

-- The sum of the round-trip times of the linked ports 1 to 3, each of which ec_slave_calc_rtt_sum
-- takes since the linked port before it (modulo 2 ^ 32), is the time from port 0 to the last of
-- them in the order 3, 1, 2, and 0 if none is linked. The receive times are 32-bit.
pub calc_rtt_sum_lem :
    (ports : ℕ → Port)
    → ((p : ℕ) → (ports p).receive_time < u32_mod)
    → calc_rtt_sum ports
      ≡ some (
          sub_mod u32_mod
            (ports (last 0 (linked_of ports (3 ∷ 1 ∷ 2 ∷ [])))).receive_time
            (ports 0).receive_time)
unfolding calc_rtt_sum fold port_rtt
calc_rtt_sum_lem ports h =
    rw (visits_lem ports) (ground (arith, h 0, h 1, h 2, h 3, seek_prev ports))
