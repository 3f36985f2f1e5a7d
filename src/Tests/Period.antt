-- ===== src/Tests/Period.antt =====
-- Runs of the periodic process of src/ec_master.c.
use cherry_ecat.Prelude.{◌≡◌, refl, [], ◌∷◌, true, some, pos}
use cherry_ecat.Master.Period.{Period, steer, period_process}
use cherry_ecat.Master.Period.Queued.{From, periodic, period_process_total}
use cherry_ecat.Tests.Queue.{two_queued}

-- A cycle of one millisecond, behind the reference clock by 300 microseconds.
abbrev running : Period
running = record {
  master = two_queued;
  in_operation = true;
  dc_ref_clock = some (150, true);
  dc_sync_with_dc_ref_enable = true;
  pdo_datagram = 2;
  dc_ref_sync_datagram = 3;
  dc_all_sync_datagram = 4;
  cycle_time = 1000000;
  shift_time = 0;
  dc_sync_integral = pos 40;
  timer = [];
  last_start_time = 0;
  interval = 7;
}

steered : (steer running 5300000).timer ≡ 997 ∷ []
unfolding steer
steered = refl

period_process_total_example :
    (p' : Period) × (period_process (true ∷ []) running ≡ some p')
    × From two_queued (periodic running) p'.master
    × (p'.interval ≡ 8)
period_process_total_example = period_process_total (true ∷ []) running (refl, (refl, tt))
