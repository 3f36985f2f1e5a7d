-- ===== src/Netdev.antt =====
-- src/ec_netdev.c: the counters of a network device, with their low-pass filters. The driver's
-- ec_netdev_low_level_output is an argument: whether it takes the frame. The difference of two rates
-- is computed without a bound: the source's int32_t has no defined value where it overflows.
pub mod Rates
pub mod Link
use cherry_ecat.Prelude.{
  ℕ, ◌+◌, ◌*◌, ◌%◌, List, [], ◌∷◌, Bool, true, false, Option, none, some, if◌then◌else◌, ltb,
  sub_mod, u32_mod, u64_mod, ℤ, pos, negsuc, pos_part, neg_part, sub_ℕ, quot, to_i32,
}
use cherry_ecat.Master.Delivery.{Delivery, Handover, receive}

-- ec_netdev_stats_t; an array of rates has EC_RATE_COUNT = 3 elements.
pub record Stats : Type 0 where
  pub tx_count : ℕ
  pub last_tx_count : ℕ
  pub rx_count : ℕ
  pub last_rx_count : ℕ
  pub tx_bytes : ℕ
  pub last_tx_bytes : ℕ
  pub rx_bytes : ℕ
  pub last_rx_bytes : ℕ
  pub tx_errors : ℕ
  pub loss_count : ℕ
  pub tx_frame_rates : List ℤ
  pub rx_frame_rates : List ℤ
  pub tx_byte_rates : List ℤ
  pub rx_byte_rates : List ℤ
  pub loss_rates : List ℤ
  pub last_jiffies : ℕ

-- netdev_rate_intervals
abbrev pub netdev_rate_intervals : List ℕ
netdev_rate_intervals = 1 ∷ 10 ∷ 60 ∷ []

-- `rate += (x - rate) / n`
unfoldable pub low_pass : ℤ → ℕ → ℤ → ℤ
unfolding sub_ℕ quot
low_pass x n rate =
    let step = quot (sub_ℕ (pos_part x + neg_part rate) (neg_part x + pos_part rate)) n in
    sub_ℕ (pos_part rate + pos_part step) (neg_part rate + neg_part step)

-- The loop over the intervals, for one of the arrays.
unfoldable pub filter_rates : ℤ → List ℕ → List ℤ → List ℤ
unfolding low_pass
filter_rates x [] rates = rates
filter_rates x (n ∷ intervals) [] = []
filter_rates x (n ∷ intervals) (rate ∷ rates) = low_pass x n rate ∷ filter_rates x intervals rates

-- A uint64_t as an int32_t, and back.
abbrev pub as_i32 : ℕ → ℤ
as_i32 n = to_i32 (pos (n % u32_mod))

abbrev pub as_u64 : ℤ → ℕ
as_u64 z = sub_mod u64_mod (pos_part z) (neg_part z)

-- ec_netdev_update_stats; `now` and `later` are its readings of the clock.
unfoldable pub update_stats : ℕ → ℕ → Stats → Stats
unfolding filter_rates to_i32
update_stats now later s =
    let tx_frame_rate = as_i32 (sub_mod u64_mod s.tx_count s.last_tx_count * 1000) in
    let rx_frame_rate = as_i32 (sub_mod u64_mod s.rx_count s.last_rx_count * 1000) in
    let tx_byte_rate = as_i32 (sub_mod u64_mod s.tx_bytes s.last_tx_bytes) in
    let rx_byte_rate = as_i32 (sub_mod u64_mod s.rx_bytes s.last_rx_bytes) in
    let loss = as_i32 (sub_mod u64_mod s.tx_count s.rx_count) in
    let loss_rate = as_i32 (sub_mod u64_mod (as_u64 loss) s.loss_count * 1000) in
    if ltb (sub_mod u64_mod now s.last_jiffies) 1000000000 then s else record s {
      tx_frame_rates = filter_rates tx_frame_rate netdev_rate_intervals s.tx_frame_rates;
      rx_frame_rates = filter_rates rx_frame_rate netdev_rate_intervals s.rx_frame_rates;
      tx_byte_rates = filter_rates tx_byte_rate netdev_rate_intervals s.tx_byte_rates;
      rx_byte_rates = filter_rates rx_byte_rate netdev_rate_intervals s.rx_byte_rates;
      loss_rates = filter_rates loss_rate netdev_rate_intervals s.loss_rates;
      last_tx_count = s.tx_count;
      last_rx_count = s.rx_count;
      last_tx_bytes = s.tx_bytes;
      last_rx_bytes = s.rx_bytes;
      loss_count = as_u64 loss;
      last_jiffies = later;
    }

-- ec_netdev_send: false for -1. ETH_HLEN is 14.
unfoldable pub send : Bool → ℕ → Stats → Bool × Stats
send true size s = (
  true,
  record s {
    tx_count = (s.tx_count + 1) % u64_mod;
    tx_bytes = (s.tx_bytes + (14 + size) % u32_mod) % u64_mod;
  },
)
send false size s = (false, record s { tx_errors = (s.tx_errors + 1) % u64_mod })

-- ec_netdev_receive, of `size` bytes, those behind the Ethernet header first.
unfoldable pub netdev_receive :
    (ℕ → ℕ) → ℕ → Stats → Delivery → Option (Stats × (List Handover × Delivery))
unfolding receive
netdev_receive ec_data size s r =
    let s' = record s {
      rx_count = (s.rx_count + 1) % u64_mod;
      rx_bytes = (s.rx_bytes + size) % u64_mod;
    } in
    elim (receive ec_data (sub_mod u32_mod size 14) r) [ none ↦ none | some o ↦ some (s', o) ]
