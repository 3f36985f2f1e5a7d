-- ===== src/Master/Period/Steering.antt =====
-- src/ec_master.c, ec_master_dc_sync_with_pi and the timer's new period: bounds.
use cherry_ecat.Prelude.{ℕ, ◌+◌, ◌/◌, ◌≤◌, ℤ, pos_part, neg_part}
use cherry_ecat.Master.Period.{Period}

-- What the timer is set to, in microseconds, next to the cycle time.
abbrev pub Near : ℕ → ℤ → ℕ → Type 0
Near c i us =
    (us ≤ c / 1000 + (c / 200 + neg_part i / 20) / 1000)
    × (c / 1000 ≤ us + (c / 200 + pos_part i / 20) / 1000)
