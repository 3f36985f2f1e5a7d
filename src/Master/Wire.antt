-- ===== src/Master/Wire.antt =====
-- The sizes of the datagrams and of the bodies of the frames that ec_master_send_datagrams builds.
pub mod Layout
pub mod Replay
pub mod Parse
pub mod Echo
pub mod Frames
use cherry_ecat.Prelude.{
  ℕ, zero, suc, ◌+◌, ◌-◌, ◌/◌, ◌%◌, ◌≤◌, ◌≡◌, refl, List, [], ◌∷◌, ◌++◌, Option, none, some,
  Bool-cases, arith, inl, inr, length, length-append, length-replicate, replicate, Ends, subst, ◌⊎◌,
  ap, read_u8, read_u16, length-write_u16,
}
use cherry_ecat.Datagram.{Datagram}
use cherry_ecat.Master.{Master}
use cherry_ecat.Master.Frame.{Fill, fill_frame, add_datagram, encode, slice, set_follows}
use cherry_ecat.Master.Send.{
  finish_frame, start_fill, send_frame, send_rounds, send_datagrams, is_empty,
}
use cherry_ecat.Master.Progress.{send_datagrams_total}

pub length-slice : (mem : ℕ → ℕ) (off n : ℕ) → length (slice mem off n) ≡ n
length-slice mem off zero = refl
length-slice mem off (suc n) = ap suc (length-slice mem (off + 1) n)

-- A datagram takes 12 bytes more than its data.
pub length-encode : (d : Datagram) (i w : ℕ) → length (encode d i w) ≡ 12 + d.data_size
length-encode d i w = omega (
  arith,
  length-append (slice (read_u8 d.buf) 0 d.data_size) (0 ∷ 0 ∷ []),
  length-slice (read_u8 d.buf) 0 d.data_size,
)

pub length-set_follows : (body : List ℕ) (o : Option ℕ) → length (set_follows body o) ≡ length body
length-set_follows body none = refl
length-set_follows body (some off) = length-write_u16 body off _

length-add_datagram :
    (f : Fill) (p : ℕ)
    → length (add_datagram f p).body ≡ length f.body + (12 + (f.cells p).data_size)
unfolding add_datagram
length-add_datagram f p = omega (
  arith,
  length-append (set_follows f.body f.follows_word)
      (encode (f.cells p) f.index ((f.cells p).data_size % 2048)),
  length-encode (f.cells p) f.index ((f.cells p).data_size % 2048),
  length-set_follows f.body f.follows_word,
)

-- Filling never takes the body of a frame past ETH_DATA_LEN - EC_FRAME_HEADER_SIZE.
pub length-fill_frame :
    (n : ℕ) (ps : List ℕ) (f : Fill) → length f.body ≤ 1498 → length (fill_frame n ps f).body ≤ 1498
unfolding fill_frame
length-fill_frame n [] f h = h
length-fill_frame n (p ∷ ps) f h = ground (
  arith,
  length-fill_frame n ps f h,
  length-fill_frame n ps (add_datagram f p),
  length-add_datagram f p,
)
