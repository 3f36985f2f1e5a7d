-- ===== src/Master/Delivery/Handed.antt =====
-- What src/ec_master.c, ec_master_receive, hands to the callbacks lies in the slaves' parts of the
-- image.
use cherry_ecat.Prelude.{ℕ, ◌+◌, ◌-◌, ◌≤◌, ◌≡◌, List, [], ◌∷◌, map, Bool, if◌then◌else◌, ◌&&◌, Gets}
use cherry_ecat.Domain.{Area, slave_at}
use cherry_ecat.Master.{Master}
use cherry_ecat.Master.Delivery.{Delivery, Handover, callbacks, is_received}

abbrev pub areas_of : List (Area × Bool) → List Area
areas_of slaves = map (λ s. s.0) slaves

-- The outputs are at the start of the slave's part, the inputs behind them, and both lie in the image.
abbrev Placed : ℕ → Handover → Area → Type 0
Placed size h a =
    (h.output ≡ a.logical_start_address)
    × ((h.input ≡ a.logical_start_address + a.odata_size) × (h.input + a.idata_size ≤ size))

-- The slave is one of those from the position `k` on.
unfoldable pub Handed : List Area → ℕ → ℕ → Handover → Type 0
Handed areas size k h =
    (k ≤ h.slave_index) × Gets (Placed size h) (slave_at areas (h.slave_index - k))

abbrev pub AllHanded : List Area → ℕ → ℕ → List Handover → Type 0
AllHanded areas size k [] = Unit
AllHanded areas size k (h ∷ hs) = Handed areas size k h × AllHanded areas size k hs

-- What a call hands over, with the master after the frame.
unfoldable pub Delivered : Delivery → ℕ → Master → List Handover × Delivery → Type 0
Delivered r size m (hs, r') =
    (hs ≡ (
      if r.in_operation && is_received (m.cells r.pdo_datagram).state
      then callbacks 0 r.slaves
      else []))
    × AllHanded (areas_of r.slaves) size 0 hs
    × (r'.actual_working_counter ≡ (
        if r.in_operation
        then if is_received (m.cells r.pdo_datagram).state
          then (m.cells r.pdo_datagram).working_counter
          else 0
        else r.actual_working_counter))
