-- ===== src/Domain/Access.antt =====
-- The parts of the process data that ec_master_get_slave_domain and its kin of src/ec_master.c give
-- out lie in the image.
use cherry_ecat.Prelude.{
  ℕ, ◌+◌, ◌-◌, ◌%◌, ◌≤◌, ◌<◌, List, [], ◌∷◌, Bool, true, false, Option, none, some, Ends, arith,
  ◌==◌, if◌then◌else◌, u32_mod,
}
use cherry_ecat.Domain.{
  Area, slave_at, part_domain, part_domain_output, part_domain_input, part_domain_size,
  part_domain_osize, part_domain_isize, get_slave_domain, get_slave_domain_output,
  get_slave_domain_input, get_slave_domain_size, get_slave_domain_osize, get_slave_domain_isize,
}
use cherry_ecat.Domain.Disjoint.{Tiles, tiled, tile}

-- A slave's part lies between two addresses.
abbrev Inside : ℕ → ℕ → Area → Type 0
Inside from to s =
    (from ≤ s.logical_start_address)
    × (s.logical_start_address + (s.odata_size + s.idata_size) ≤ to)

pub Tiles-ordered : (slaves : List Area) (from to : ℕ) → Tiles slaves from to → from ≤ to
Tiles-ordered [] from to (tiled n) = omega arith
Tiles-ordered (s ∷ ss) from to (tile _ _ _ _ e t) =
    omega (arith, Tiles-ordered ss (from + (s.odata_size + s.idata_size)) to t)

Ends-if :
    (P : Area → Type 0) (b : Bool) (o o' : Option Area)
    → Ends P o
    → Ends P o'
    → Ends P (if b then o else o')
Ends-if P true o o' h h' = h
Ends-if P false o o' h h' = h'

Ends-Inside :
    (from mid to : ℕ) (o : Option Area)
    → from ≤ mid
    → Ends (Inside mid to) o
    → Ends (Inside from to) o
Ends-Inside from mid to none h k = tt
Ends-Inside from mid to (some s) h k = (omega (arith, k.0), k.1)

slave_at-Inside :
    (slaves : List Area) (from to i : ℕ)
    → Tiles slaves from to
    → Ends (Inside from to) (slave_at slaves i)
unfolding slave_at
slave_at-Inside [] from to i t = tt
slave_at-Inside (s ∷ ss) from to i (tile _ _ _ _ e t) =
    Ends-if (Inside from to) (i == 0) (some s) (slave_at ss (i - 1))
      (
        omega (arith, e),
        omega (arith, e, Tiles-ordered ss (from + (s.odata_size + s.idata_size)) to t),
      )
      (Ends-Inside from (from + (s.odata_size + s.idata_size)) to (slave_at ss (i - 1))
        (omega arith) (slave_at-Inside ss (from + (s.odata_size + s.idata_size)) to (i - 1) t))

-- The `n` bytes from an address on lie between two others.
abbrev pub Span : ℕ → ℕ → ℕ → ℕ → Type 0
Span from to n p = (from ≤ p) × (p + n ≤ to)

Ends-else : (P : ℕ → Type 0) (b : Bool) (p : ℕ) → P p → Ends P (if b then none else some p)
Ends-else P true p h = tt
Ends-else P false p h = h

parts-Span :
    (from to : ℕ) (o : Option Area)
    → to < u32_mod
    → Ends (Inside from to) o
    → Ends (Span from to (part_domain_size o)) (part_domain o)
      × Ends (Span from to (part_domain_osize o)) (part_domain_output o)
      × Ends (Span from to (part_domain_isize o)) (part_domain_input o)
parts-Span from to none h k = (tt, tt, tt)
parts-Span from to (some s) h k = (
  Ends-else (Span from to ((s.odata_size + s.idata_size) % u32_mod))
      ((s.odata_size + s.idata_size) % u32_mod == 0) s.logical_start_address
      (k.0, omega (arith, k.1)),
  Ends-else (Span from to s.odata_size) (s.odata_size == 0) s.logical_start_address
      (k.0, omega (arith, k.1)),
  Ends-else (Span from to s.idata_size) (s.idata_size == 0)
      ((s.logical_start_address + s.odata_size) % u32_mod)
      (omega (arith, k.0, k.1), omega (arith, k.1)),
)

-- Where the parts of the slaves fill an image that ends below 2^32, each area that the access
-- functions give for a slave index, in all, of outputs or of inputs, lies in the image with the size
-- that the corresponding function gives for it.
pub domains-Span :
    (slaves : List Area) (from to i : ℕ)
    → Tiles slaves from to
    → to < u32_mod
    → Ends (Span from to (get_slave_domain_size slaves i)) (get_slave_domain slaves i)
      × Ends (Span from to (get_slave_domain_osize slaves i)) (get_slave_domain_output slaves i)
      × Ends (Span from to (get_slave_domain_isize slaves i)) (get_slave_domain_input slaves i)
unfolding get_slave_domain get_slave_domain_output get_slave_domain_input get_slave_domain_size
    get_slave_domain_osize get_slave_domain_isize
domains-Span slaves from to i t h =
    parts-Span from to (slave_at slaves i) h (slave_at-Inside slaves from to i t)
