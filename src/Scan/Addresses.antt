-- ===== src/Scan/Addresses.antt =====
-- The addresses that src/ec_slave.c, ec_slaves_scanning, gives out tell the slaves apart.
use cherry_ecat.Prelude.{
  ℕ, zero, suc, ◌+◌, ◌≤◌, ◌<◌, ◌≡◌, ◌≢◌, ◌⊎◌, inl, inr, refl, ap, List, [], ◌∷◌, ◌++◌, arith,
  length, length-append, subst, u16_mod,
}
use cherry_ecat.Scan.{Station, negated, station, device_stations, stations, total}

-- Different station addresses, and on one device different positions.
abbrev pub Apart : Station → Station → Type 0
Apart s t =
    (s.station_address ≢ t.station_address)
    × ((s.netdev_idx ≡ t.netdev_idx) → s.autoinc_address ≢ t.autoinc_address)

abbrev pub AllOf : (Station → Type 0) → List Station → Type 0
AllOf P [] = Unit
AllOf P (t ∷ ts) = P t × AllOf P ts

-- Every slave is apart from those behind it, and its index is its position.
abbrev pub Addressed : ℕ → List Station → Type 0
Addressed i [] = Unit
Addressed i (s ∷ ss) =
    (s.index ≡ i) × ((0 < s.station_address) × (AllOf (Apart s) ss × Addressed (i + 1) ss))

-- Behind the slave with the index `i` at the position `a` of the device `d`.
abbrev Behind : ℕ → ℕ → ℕ → Station → Type 0
Behind i d a t =
    (i < t.index)
    × ((t.station_address ≡ t.index + 1001)
        × ((d < t.netdev_idx)
            ⊎ ((t.netdev_idx ≡ d)
                × ((b : ℕ) × ((a < b) × ((b < u16_mod) × (t.autoinc_address ≡ negated b)))))))

AllOf-append :
    (P : Station → Type 0) (xs ys : List Station) → AllOf P xs → AllOf P ys → AllOf P (xs ++ ys)
AllOf-append P [] ys p q = q
AllOf-append P (x ∷ xs) ys p q = (p.0, AllOf-append P xs ys p.1 q)

AllOf-map :
    (P Q : Station → Type 0)
    → ((t : Station) → P t → Q t)
    → (xs : List Station) → AllOf P xs
    → AllOf Q xs
AllOf-map P Q f [] p = tt
AllOf-map P Q f (x ∷ xs) p = (f x p.0, AllOf-map P Q f xs p.1)

device-Behind :
    (n d b k i a : ℕ)
    → i < k
    → a < b
    → b + n ≤ u16_mod
    → k + n ≤ 64535
    → AllOf (Behind i d a) (device_stations n d b k)
unfolding device_stations
device-Behind zero d b k i a h g l m = tt
device-Behind (suc n) d b k i a h g l m = (
  (h, (omega arith, inr (refl, (b, (g, (omega arith, refl)))))),
  device-Behind n d (b + 1) (k + 1) i a (omega arith) (omega arith) (omega arith) (omega arith),
)

-- Slaves of later devices.
abbrev Beyond : ℕ → ℕ → Station → Type 0
Beyond i d t = (i < t.index) × ((t.station_address ≡ t.index + 1001) × (d < t.netdev_idx))

device-Beyond :
    (n e b k i d : ℕ) → i < k → d < e → k + n ≤ 64535 → AllOf (Beyond i d) (device_stations n e b k)
unfolding device_stations
device-Beyond zero e b k i d h g m = tt
device-Beyond (suc n) e b k i d h g m =
    ((h, (omega arith, g)), device-Beyond n e (b + 1) (k + 1) i d (omega arith) g (omega arith))

stations-Beyond :
    (cs : List ℕ) (e k i d : ℕ)
    → i < k
    → d < e
    → k + total cs ≤ 64535
    → AllOf (Beyond i d) (stations cs e k)
unfolding stations
stations-Beyond [] e k i d h g m = tt
stations-Beyond (n ∷ cs) e k i d h g m =
    AllOf-append (Beyond i d) (device_stations n e 0 k) (stations cs (e + 1) (k + n))
      (device-Beyond n e 0 k i d h g (omega arith))
      (stations-Beyond cs (e + 1) (k + n) i d (omega arith) (omega arith) (omega arith))

Behind-Apart :
    (i d a : ℕ) → i < 64535 → a < u16_mod → (t : Station) → Behind i d a t → Apart (station i d a) t
Behind-Apart i d a h g t (l, (s, inl e)) = (omega arith, λ q. absurd (omega arith))
Behind-Apart i d a h g t (l, (s, inr (q, (b, (m, (k, e)))))) = (omega arith, λ _. omega arith)

device-Addressed :
    (n d a k : ℕ) (rest : List Station)
    → a + n ≤ u16_mod
    → k + n ≤ 64535
    → ((i : ℕ) → i < k + n → AllOf (Beyond i d) rest)
    → Addressed (k + n) rest
    → Addressed k (device_stations n d a k ++ rest)
unfolding device_stations
device-Addressed zero d a k rest l m f r = subst (λ i. Addressed i rest) (omega arith) r
device-Addressed (suc n) d a k rest l m f r = (
  refl,
  (
    omega arith,
    (
      AllOf-map (Behind k d a) (Apart (station k d a))
          (Behind-Apart k d a (omega arith) (omega arith)) _
          (AllOf-append (Behind k d a) (device_stations n d (a + 1) (k + 1)) rest
            (device-Behind n d (a + 1) (k + 1) k a (omega arith) (omega arith) (omega arith)
              (omega arith))
            (AllOf-map (Beyond k d) (Behind k d a) (λ t b. (b.0, (b.1.0, inl b.1.1))) rest
              (f k (omega arith)))),
      device-Addressed n d (a + 1) (k + 1) rest (omega arith) (omega arith)
          (λ i h. f i (omega arith)) (subst (λ i. Addressed i rest) (omega arith) r),
    ),
  ),
)

stations-Addressed : (cs : List ℕ) (d k : ℕ) → k + total cs ≤ 64535 → Addressed k (stations cs d k)
unfolding stations
stations-Addressed [] d k m = tt
stations-Addressed (n ∷ cs) d k m =
    device-Addressed n d 0 k (stations cs (d + 1) (k + n)) (omega arith) (omega arith)
      (λ i h. stations-Beyond cs (d + 1) (k + n) i d h (omega arith) (omega arith))
      (stations-Addressed cs (d + 1) (k + n) (omega arith))

length-device_stations : (n d a k : ℕ) → length (device_stations n d a k) ≡ n
unfolding device_stations
length-device_stations zero d a k = refl
length-device_stations (suc n) d a k = ap suc (length-device_stations n d (a + 1) (k + 1))

pub length-stations : (cs : List ℕ) (d k : ℕ) → length (stations cs d k) ≡ total cs
unfolding stations
length-stations [] d k = refl
length-stations (n ∷ cs) d k = omega (
  arith,
  length-append (device_stations n d 0 k) (stations cs (d + 1) (k + n)),
  length-device_stations n d 0 k,
  length-stations cs (d + 1) (k + n),
)

-- Where at most 64535 slaves answer on all devices together, the scan makes as many slaves as answer,
-- with their positions as indices, and with station addresses that are not 0 and differ; slaves on
-- the same device differ in their auto-increment addresses.
pub stations_lem :
    (counters : List ℕ)
    → total counters ≤ 64535
    → Addressed 0 (stations counters 0 0) × (length (stations counters 0 0) ≡ total counters)
stations_lem counters m =
    (stations-Addressed counters 0 0 (omega arith), length-stations counters 0 0)
