-- ===== src/Datagram/Facts.antt =====
-- Facts on src/ec_datagram.c: what the fill functions write and what they leave alone.
use cherry_ecat.Prelude.{
  ℕ, ◌+◌, ◌*◌, ◌/◌, ◌%◌, ◌<◌, ◌≡◌, ◌∙◌, refl, [], ◌∷◌, false, read_u32, arith, u32_mod, write_u16,
}
use cherry_ecat.Datagram.{Datagram, DatagramState}
use cherry_ecat.Datagram.Fill.{fill, lrw}

-- The address of a filled datagram as the slaves read it.
four_bytes :
    (a b c e adp ado : ℕ)
    → adp < 65536
    → ado < 65536
    → read_u32 (write_u16 (write_u16 (a ∷ b ∷ c ∷ e ∷ []) 0 adp) 2 ado) 0 ≡ adp + 65536 * ado
four_bytes a b c e adp ado h k = omega arith

-- For a datagram whose address field has its four bytes and a 32-bit offset, ec_datagram_lrw
-- writes the whole offset into the address field, low byte first, and resets the datagram for
-- sending: state INIT, index, working counter and waiter cleared.
pub lrw_address :
    (d : Datagram) (a b c e offset size : ℕ)
    → d.address ≡ a ∷ b ∷ c ∷ e ∷ []
    → offset < u32_mod
    → (read_u32 (lrw d offset size).address 0 ≡ offset)
      × ((lrw d offset size).state ≡ DatagramState.init)
      × ((lrw d offset size).index ≡ 0)
      × ((lrw d offset size).working_counter ≡ 0)
      × ((lrw d offset size).waiter ≡ false)
unfolding lrw fill
lrw_address d a b c e offset size h k = (
  simp h (
      four_bytes a b c e (offset % 65536) (offset / 65536 % 65536) (omega arith) (omega arith)
      ∙ omega arith),
  refl,
  refl,
  refl,
  refl,
)
