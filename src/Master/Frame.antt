-- ===== src/Master/Frame.antt =====
-- src/ec_master.c, the body of a frame: the inner loop of ec_master_send_datagrams, which copies
-- queued datagrams into the transmit buffer until one does not fit. `body` holds the bytes from
-- behind the frame header up to `cur_data`, so `cur_data - frame_data` is 2 more than its length;
-- the buffer pointer itself is only fetched, and is left out.
use cherry_ecat.Prelude.{
  ℕ, zero, suc, ◌+◌, ◌%◌, ◌/◌, List, [], ◌∷◌, ◌++◌, Option, none, some, Bool, true, false, length,
  read_u8, read_u16, write_u16, if◌then◌else◌, ltb, ◌==◌, ◌&&◌, test_bit,
}
use cherry_ecat.Datagram.{Datagram, DatagramState, type_code}
use cherry_ecat.Master.{store}

abbrev pub is_queued : DatagramState → Bool
is_queued DatagramState.queued = true
is_queued _ = false

abbrev pub is_sent : DatagramState → Bool
is_sent DatagramState.sent = true
is_sent _ = false

-- The `n` bytes of a memory from the address `off` on: a memcpy out of it.
abbrev pub slice : (ℕ → ℕ) → ℕ → ℕ → List ℕ
slice mem off zero = []
slice mem off (suc n) = mem off ∷ slice mem (off + 1) n

-- EtherCAT datagram header, with `follows` as bit 15 of the length word, data and footer.
abbrev pub encode : Datagram → ℕ → ℕ → List ℕ
encode d index word =
    type_code d.type
      ∷ index % 256
      ∷ read_u8 d.address 0
      ∷ read_u8 d.address 1
      ∷ read_u8 d.address 2
      ∷ read_u8 d.address 3
      ∷ word % 256
      ∷ word / 256 % 256
      ∷ 0
      ∷ 0
      ∷ slice (read_u8 d.buf) 0 d.data_size
    ++ 0 ∷ 0 ∷ []

-- x | 0x8000
abbrev pub or_follows : ℕ → ℕ
or_follows x = if test_bit x 15 then x else x + 32768

-- The "datagram following" flag in the previous datagram, whose length word is at `off`.
abbrev pub set_follows : List ℕ → Option ℕ → List ℕ
set_follows body none = body
set_follows body (some off) = write_u16 body off (or_follows (read_u16 body off))

pub record Fill : Type 0 where
  pub cells : ℕ → Datagram
  pub index : ℕ
  pub body : List ℕ
  pub sent : List ℕ
  pub follows_word : Option ℕ
  pub more : Bool

-- The test that skips a datagram, negated.
abbrev pub eligible : ℕ → Datagram → Bool
eligible netdev_idx d = is_queued d.state && d.netdev_idx == netdev_idx

-- Whether the datagram would exceed ETH_DATA_LEN.
abbrev pub too_long : List ℕ → Datagram → Bool
too_long body d = ltb 1500 (2 + length body + (10 + d.data_size + 2))

-- Adding the datagram at `p`: `index` is a uint8_t.
unfoldable pub add_datagram : Fill → ℕ → Fill
add_datagram f p =
    let body = set_follows f.body f.follows_word in
    let d = f.cells p in
    record f {
      sent = f.sent ++ p ∷ [];
      cells = store f.cells p (record (f.cells p) { index = f.index });
      index = (f.index + 1) % 256;
      body = body ++ encode d f.index (d.data_size % 2048);
      follows_word = some (length body + 6);
    }

unfoldable pub fill_frame : ℕ → List ℕ → Fill → Fill
fill_frame netdev_idx [] f = f
fill_frame netdev_idx (p ∷ ps) f =
    let skip = fill_frame netdev_idx ps f in
    let next = fill_frame netdev_idx ps (add_datagram f p) in
    if eligible netdev_idx (f.cells p)
    then if too_long f.body (f.cells p) then record f { more = true } else next
    else skip
