-- ===== src/Domain/Disjoint.antt =====
-- The process data that ec_master_start of src/ec_master.c lays out: what the parts of the image are.
use cherry_ecat.Prelude.{
  ◌==◌, ◌&&◌, ltb, leb, length, u16_mod, if◌then◌else◌, ◌∙◌, ℕ, ◌+◌, ◌%◌, ◌<◌, ◌≡◌, refl, List, [],
  ◌∷◌, Bool, true, false, Option, none, some, Ends, arith, u32_mod, subst,
}
use cherry_ecat.Domain.{Direction, output, input, Sync, Area}
use cherry_ecat.Domain.Layout.{
  entries_fit, sm_of, Limits, Image, sync_bytes, layout_sync, layout_syncs, layout_slave, layout,
  add_size, ◌>>=◌,
}

Ends-weaken {ℓ κ} :
    {A : Type ℓ} (P Q : A → Type κ) (o : Option A) → Ends P o → ((a : A) → P a → Q a) → Ends Q o
Ends-weaken P Q none h g = tt
Ends-weaken P Q (some a) h g = g a h

-- The bytes that the configuration of the slaves asks for.
abbrev pub syncs_bytes : List Sync → ℕ
syncs_bytes [] = 0
syncs_bytes (c ∷ cs) = sync_bytes c + syncs_bytes cs

abbrev pub config_bytes : List (Option (List Sync) × Area) → ℕ
config_bytes [] = 0
config_bytes ((none, a) ∷ rest) = config_bytes rest
config_bytes ((some cs, a) ∷ rest) = syncs_bytes cs + config_bytes rest

-- The parts of the slaves fill the image from `from` to `to` without a gap and without an overlap.
pub data Tiles : List Area → ℕ → ℕ → Type 0 where
  tiled : (n : ℕ) → Tiles [] n n
  tile :
      (s : Area) (ss : List Area) (from to : ℕ)
      → s.logical_start_address ≡ from
      → Tiles ss (from + (s.odata_size + s.idata_size)) to
      → Tiles (s ∷ ss) from to

-- What a turn over the sync managers adds to the sizes it adds to actual_pdo_size.
Grown : Area → ℕ → ℕ → Area × ℕ → Type 0
Grown a size n r =
    (r.0.logical_start_address ≡ a.logical_start_address)
    × (r.1 ≡ size + n)
    × (r.0.odata_size + r.0.idata_size ≡ a.odata_size + a.idata_size + n)

Ends-guard {ℓ κ} :
    {A : Type ℓ} (P : A → Type κ) (b : Bool) (o : Option A)
    → Ends P o
    → Ends P (if b then o else none)
Ends-guard P true o h = h
Ends-guard P false o h = tt

pub Ends->>= {ℓ κ} :
    {A B : Type ℓ} (P : A → Type κ) (Q : B → Type κ) (o : Option A) (f : A → Option B)
    → Ends P o
    → ((a : A) → P a → Ends Q (f a))
    → Ends Q (o >>= f)
Ends->>= P Q none f h g = tt
Ends->>= P Q (some a) f h g = g a h

add_size-Grown :
    (d : Direction) (n size : ℕ) (a : Area)
    → a.odata_size + a.idata_size + n < u32_mod
    → size + n < u32_mod
    → Grown a size n (add_size d n a, (size + n) % u32_mod)
unfolding Grown
add_size-Grown output n size a h k = (refl, omega arith, omega arith)
add_size-Grown input n size a h k = (refl, omega arith, omega arith)

layout_sync-Grown :
    (l : Limits) (c : Sync) (a : Area) (size : ℕ)
    → a.odata_size + a.idata_size + sync_bytes c < u32_mod
    → size + sync_bytes c < u32_mod
    → Ends (Grown a size (sync_bytes c)) (layout_sync l c (a, size))
unfolding layout_sync Grown
layout_sync-Grown l c a size h k =
    Ends-guard (Grown a size (sync_bytes c))
      (ltb c.index a.sm_count
        && (leb (length c.pdos % u16_mod) l.per_sm_max_pdos && entries_fit l c.pdos))
      (some (
        add_size c.dir (sync_bytes c)
            (record a { sm_info = λ i. if c.index == i then sm_of c size else a.sm_info i }),
        (size + sync_bytes c) % u32_mod,
      ))
      (add_size-Grown c.dir (sync_bytes c) size
        (record a { sm_info = λ i. if c.index == i then sm_of c size else a.sm_info i }) h k)

layout_syncs-Grown :
    (l : Limits) (cs : List Sync) (a : Area) (size : ℕ)
    → a.odata_size + a.idata_size + syncs_bytes cs < u32_mod
    → size + syncs_bytes cs < u32_mod
    → Ends (Grown a size (syncs_bytes cs)) (layout_syncs l cs (a, size))
unfolding layout_syncs Grown
layout_syncs-Grown l [] a size h k = (refl, omega arith, omega arith)
layout_syncs-Grown l (c ∷ cs) a size h k =
    Ends->>= (Grown a size (sync_bytes c)) (Grown a size (syncs_bytes (c ∷ cs))) _ _
      (layout_sync-Grown l c a size (omega arith) (omega arith))
      λ r g.
        Ends-weaken (Grown r.0 r.1 (syncs_bytes cs)) (Grown a size (syncs_bytes (c ∷ cs))) _
          (layout_syncs-Grown l cs r.0 r.1 (omega (arith, g.1, g.2)) (omega (arith, g.1, g.2)))
          λ r' g'. (g'.0 ∙ g.0, omega (arith, g.1, g'.1), omega (arith, g.2, g'.2))

-- A slave's part of the image.
unfoldable pub Part : ℕ → ℕ → Area × ℕ → Type 0
Part size n r =
    (r.0.logical_start_address ≡ size) × (r.1 ≡ size + n) × (r.0.odata_size + r.0.idata_size ≡ n)

pub layout_slave-Part :
    (l : Limits) (cs : List Sync) (a : Area) (size : ℕ)
    → size + syncs_bytes cs < u32_mod
    → Ends (Part size (syncs_bytes cs)) (layout_slave l (some cs) a size)
unfolding layout_slave Part Grown
layout_slave-Part l cs a size h =
    Ends->>=
      (Grown (record a { logical_start_address = size; odata_size = 0; idata_size = 0 }) size
        (syncs_bytes cs))
      (Part size (syncs_bytes cs)) _ _
      (layout_syncs-Grown l cs
        (record a { logical_start_address = size; odata_size = 0; idata_size = 0 }) size
        (omega arith) h)
      λ r g. (g.0, g.1, omega (arith, g.2))

-- The image of `n` bytes from `size` on is filled by the parts of the slaves.
pub Filled : ℕ → ℕ → Image → Type 0
Filled size n image =
    (image.actual_pdo_size ≡ size + n) × Tiles image.slaves size image.actual_pdo_size

-- Where ec_master_start lays out the slaves from the address `size` on and the image stays below
-- 2^32 bytes, the slaves' parts follow each other without a gap and without an overlap, each at its
-- logical_start_address with odata_size + idata_size bytes, and actual_pdo_size is their end.
pub layout-Filled :
    (l : Limits) (slaves : List (Option (List Sync) × Area)) (size wc : ℕ)
    → size + config_bytes slaves < u32_mod
    → Ends (Filled size (config_bytes slaves)) (layout l slaves size wc)
unfolding layout Filled Part layout_slave
layout-Filled l [] size wc h = (omega arith, Tiles.tiled size)
layout-Filled l ((none, a) ∷ rest) size wc h = tt
layout-Filled l ((some cs, a) ∷ rest) size wc h =
    Ends->>= (Part size (syncs_bytes cs)) (Filled size (config_bytes ((some cs, a) ∷ rest))) _ _
      (layout_slave-Part l cs a size (omega arith))
      λ r g.
        Ends->>= (Filled r.1 (config_bytes rest)) (Filled size (config_bytes ((some cs, a) ∷ rest)))
          _ _ (layout-Filled l rest r.1 ((wc + 3) % u32_mod) (omega (arith, g.1)))
          λ image f. (
            omega (arith, g.1, f.0),
            Tiles.tile r.0 image.slaves size image.actual_pdo_size g.0 (
                subst (λ x. Tiles image.slaves x image.actual_pdo_size) (omega (arith, g.1, g.2))
                  f.1),
          )
