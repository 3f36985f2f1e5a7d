-- ===== src/Tests/Netdev.antt =====
-- Runs of the statistics of src/ec_netdev.c.
use cherry_ecat.Prelude.{map, true, false, replicate, ◌≡◌, refl, [], ◌∷◌, pos}
use cherry_ecat.Netdev.{Stats, update_stats}
use cherry_ecat.Netdev.Link.{PhyStatus, turns}
use cherry_ecat.Netdev.Link.Followed.{latest, turns-latest, turns_lem}
use cherry_ecat.Netdev.Rates.{Updated, update_stats-Updated}

-- 1000 frames of 60 bytes sent in the first second, and 990 received.
abbrev first_second : Stats
first_second = record {
  tx_count = 1000;
  last_tx_count = 0;
  rx_count = 990;
  last_rx_count = 0;
  tx_bytes = 60000;
  last_tx_bytes = 0;
  rx_bytes = 59400;
  last_rx_bytes = 0;
  tx_errors = 0;
  loss_count = 0;
  tx_frame_rates = pos 0 ∷ pos 0 ∷ pos 0 ∷ [];
  rx_frame_rates = pos 0 ∷ pos 0 ∷ pos 0 ∷ [];
  tx_byte_rates = pos 0 ∷ pos 0 ∷ pos 0 ∷ [];
  rx_byte_rates = pos 0 ∷ pos 0 ∷ pos 0 ∷ [];
  loss_rates = pos 0 ∷ pos 0 ∷ pos 0 ∷ [];
  last_jiffies = 0;
}

update_stats-Updated_example :
    Updated first_second (update_stats 1000000000 1000000500 first_second)
update_stats-Updated_example =
    update_stats-Updated 1000000000 1000000500 first_second (tt, tt, tt, tt, tt) refl

rates_of_frames :
    (update_stats 1000000000 1000000500 first_second).tx_frame_rates
    ≡ pos 1000000 ∷ pos 100000 ∷ pos 16666 ∷ []
unfolding update_stats
rates_of_frames = refl

abbrev down : PhyStatus
down = record { link = false; duplex = false; speed = 0 }

abbrev up : PhyStatus
up = record { link = true; duplex = true; speed = 100 }

-- A cable that is plugged in, out, and in again.
turns-latest_example :
    turns (map (λ (t : PhyStatus). t ∷ []) (up ∷ down ∷ up ∷ [])) down (false ∷ [])
    ≡ (up, true ∷ [])
unfolding latest
turns-latest_example = turns-latest (down ∷ up ∷ []) up down false refl

-- Two devices that are up.
turns_lem_example :
    turns (replicate 3 (replicate 2 up)) down (false ∷ false ∷ []) ≡ (up, true ∷ false ∷ [])
turns_lem_example = turns_lem 2 up down false (false ∷ []) refl
