-- ===== src/Netdev/Rates.antt =====
-- What the filters of ec_netdev_update_stats of src/ec_netdev.c do to the rates.
use cherry_ecat.Prelude.{
  ℕ, ◌+◌, ◌*◌, ◌/◌, ◌≤◌, ◌≡◌, ◌⊎◌, inl, inr, refl, List, [], ◌∷◌, false, ltb, leb, sub_mod, u64_mod,
  ℤ, pos_part, neg_part, sub_ℕ, quot, arith, Bool-cases,
}
use cherry_ecat.Netdev.{
  Stats, netdev_rate_intervals, low_pass, filter_rates, as_i32, as_u64, update_stats,
}

-- a ≤ b
abbrev pub AtMost : ℤ → ℤ → Type 0
AtMost a b = pos_part a + neg_part b ≤ pos_part b + neg_part a

-- z lies between x and y.
abbrev pub Between : ℤ → ℤ → ℤ → Type 0
Between x y z = (AtMost x z × AtMost z y) ⊎ (AtMost y z × AtMost z x)

sub_ℕ_parts : (a b : ℕ) → pos_part (sub_ℕ a b) + b ≡ neg_part (sub_ℕ a b) + a
unfolding sub_ℕ
sub_ℕ_parts a b = ground arith

sub_ℕ_sign : (a b : ℕ) → (pos_part (sub_ℕ a b) ≡ 0) ⊎ (neg_part (sub_ℕ a b) ≡ 0)
unfolding sub_ℕ
sub_ℕ_sign a b = elim (Bool-cases (leb b a)) [ inl e ↦ rw e (inr refl) | inr e ↦ rw e (inl refl) ]

-- A step from `rate` of `a` up and `b` down, of a difference `d` to `x`.
step-Between :
    (x rate d s z : ℤ) (a b : ℕ)
    → pos_part d + (neg_part x + pos_part rate) ≡ neg_part d + (pos_part x + neg_part rate)
    → (pos_part d ≡ 0) ⊎ (neg_part d ≡ 0)
    → a ≤ pos_part d
    → b ≤ neg_part d
    → pos_part s + b ≡ neg_part s + a
    → pos_part z + (neg_part rate + neg_part s) ≡ neg_part z + (pos_part rate + pos_part s)
    → Between x rate z
step-Between x rate d s z a b e (inl g) h k f t = inl (omega arith, omega arith)
step-Between x rate d s z a b e (inr g) h k f t = inr (omega arith, omega arith)

-- The difference that a filter divides.
abbrev difference : ℤ → ℤ → ℤ
difference x rate = sub_ℕ (pos_part x + neg_part rate) (neg_part x + pos_part rate)

low_pass-Between : (x rate : ℤ) (n : ℕ) → ((m : ℕ) → m / n ≤ m) → Between x rate (low_pass x n rate)
unfolding low_pass quot
low_pass-Between x rate n h =
    let d = difference x rate in
    let s = quot d n in
    step-Between x rate d s (low_pass x n rate) (pos_part d / n) (neg_part d / n)
      (sub_ℕ_parts (pos_part x + neg_part rate) (neg_part x + pos_part rate))
      (sub_ℕ_sign (pos_part x + neg_part rate) (neg_part x + pos_part rate)) (h (pos_part d))
      (h (neg_part d)) (sub_ℕ_parts (pos_part d / n) (neg_part d / n))
      (sub_ℕ_parts (pos_part rate + pos_part s) (neg_part rate + neg_part s))

-- With the interval 1, a rate becomes the new value.
abbrev pub Same : ℤ → ℤ → Type 0
Same x z = AtMost x z × AtMost z x

step-Same :
    (x rate d s z : ℤ) (a b : ℕ)
    → pos_part d + (neg_part x + pos_part rate) ≡ neg_part d + (pos_part x + neg_part rate)
    → a ≡ pos_part d
    → b ≡ neg_part d
    → pos_part s + b ≡ neg_part s + a
    → pos_part z + (neg_part rate + neg_part s) ≡ neg_part z + (pos_part rate + pos_part s)
    → Same x z
step-Same x rate d s z a b e h k f t = (omega arith, omega arith)

low_pass-Same : (x rate : ℤ) → Same x (low_pass x 1 rate)
unfolding low_pass quot
low_pass-Same x rate =
    let d = difference x rate in
    let s = quot d 1 in
    step-Same x rate d s (low_pass x 1 rate) (pos_part d / 1) (neg_part d / 1)
      (sub_ℕ_parts (pos_part x + neg_part rate) (neg_part x + pos_part rate)) (omega arith)
      (omega arith) (sub_ℕ_parts (pos_part d / 1) (neg_part d / 1))
      (sub_ℕ_parts (pos_part rate + pos_part s) (neg_part rate + neg_part s))

-- What an update makes of an array of three rates, whose new value is `x`.
abbrev pub Follows : ℤ → List ℤ → List ℤ → Type 0
Follows x (r1 ∷ r10 ∷ r60 ∷ []) (z1 ∷ z10 ∷ z60 ∷ []) =
    Same x z1 × (Between x r10 z10 × Between x r60 z60)
Follows x rates rates' = ⊥

abbrev pub Three : List ℤ → Type 0
Three (a ∷ b ∷ c ∷ []) = Unit
Three rates = ⊥

filter_rates-Follows :
    (x : ℤ) (rates : List ℤ)
    → Three rates
    → Follows x rates (filter_rates x netdev_rate_intervals rates)
unfolding filter_rates
filter_rates-Follows x [] t = absurd t
filter_rates-Follows x (a ∷ []) t = absurd t
filter_rates-Follows x (a ∷ b ∷ []) t = absurd t
filter_rates-Follows x (a ∷ b ∷ c ∷ d ∷ rest) t = absurd t
filter_rates-Follows x (a ∷ b ∷ c ∷ []) t = (
  low_pass-Same x a,
  (low_pass-Between x b 10 (λ m. omega arith), low_pass-Between x c 60 (λ m. omega arith)),
)

-- The five arrays have their length.
abbrev pub IsWhole : Stats → Type 0
IsWhole s =
    Three s.tx_frame_rates
    × Three s.rx_frame_rates
    × Three s.tx_byte_rates
    × Three s.rx_byte_rates
    × Three s.loss_rates

-- What was counted since the last update, as an int32_t: frames and losses a thousandfold.
abbrev pub tx_frames : Stats → ℤ
tx_frames s = as_i32 (sub_mod u64_mod s.tx_count s.last_tx_count * 1000)

abbrev pub rx_frames : Stats → ℤ
rx_frames s = as_i32 (sub_mod u64_mod s.rx_count s.last_rx_count * 1000)

abbrev pub tx_data : Stats → ℤ
tx_data s = as_i32 (sub_mod u64_mod s.tx_bytes s.last_tx_bytes)

abbrev pub rx_data : Stats → ℤ
rx_data s = as_i32 (sub_mod u64_mod s.rx_bytes s.last_rx_bytes)

abbrev pub lost : Stats → ℕ
lost s = as_u64 (as_i32 (sub_mod u64_mod s.tx_count s.rx_count))

abbrev pub losses : Stats → ℤ
losses s = as_i32 (sub_mod u64_mod (lost s) s.loss_count * 1000)

-- The rates between two statistics, and what is remembered for the next update.
abbrev pub Updated : Stats → Stats → Type 0
Updated s s' =
    Follows (tx_frames s) s.tx_frame_rates s'.tx_frame_rates
    × Follows (rx_frames s) s.rx_frame_rates s'.rx_frame_rates
    × Follows (tx_data s) s.tx_byte_rates s'.tx_byte_rates
    × Follows (rx_data s) s.rx_byte_rates s'.rx_byte_rates
    × Follows (losses s) s.loss_rates s'.loss_rates
    × ((s'.last_tx_count ≡ s.tx_count)
        × (s'.last_rx_count ≡ s.rx_count)
        × (s'.last_tx_bytes ≡ s.tx_bytes)
        × (s'.last_rx_bytes ≡ s.rx_bytes)
        × (s'.loss_count ≡ lost s))

-- Where a second has passed since the last update, ec_netdev_update_stats sets each rate of the
-- interval of 1 s to what was counted since, frames and losses a thousandfold and as an int32_t,
-- moves those of 10 s and 60 s towards it without ever passing it, and starts to count anew.
pub update_stats-Updated :
    (now later : ℕ) (s : Stats)
    → IsWhole s
    → ltb (sub_mod u64_mod now s.last_jiffies) 1000000000 ≡ false
    → Updated s (update_stats now later s)
unfolding update_stats
update_stats-Updated now later s (a, b, c, d, e) h = rw h (
  filter_rates-Follows (tx_frames s) s.tx_frame_rates a,
  filter_rates-Follows (rx_frames s) s.rx_frame_rates b,
  filter_rates-Follows (tx_data s) s.tx_byte_rates c,
  filter_rates-Follows (rx_data s) s.rx_byte_rates d,
  filter_rates-Follows (losses s) s.loss_rates e,
  (refl, refl, refl, refl, refl),
)
