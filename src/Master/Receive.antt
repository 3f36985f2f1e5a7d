-- ===== src/Master/Receive.antt =====
-- src/ec_master.c, ec_master_receive_datagrams: parsing a received frame and completing the
-- datagrams that it answers. The source reads `frame_data` without comparing the position of a
-- header with `size` first, so the frame is a memory `mem` beside its size: what lies behind the
-- frame is whatever the memory holds there. `size` is a size_t, and so are the positions, which
-- stay far below its bound. The loop is bounded by fuel; Progress shows that it is enough.
use cherry_ecat.Prelude.{
  ℕ, zero, suc, ◌+◌, ◌*◌, ◌%◌, List, [], ◌∷◌, Option, none, some, Bool, true, false, ltb, ◌==◌,
  ◌&&◌, if◌then◌else◌, test_bit, copy_into,
}
use cherry_ecat.Datagram.{Datagram, DatagramType, DatagramState, type_code}
use cherry_ecat.Master.{Master, bump, store, unqueue_datagram}
use cherry_ecat.Master.Frame.{slice, is_sent}

abbrev pub mem_u16 : (ℕ → ℕ) → ℕ → ℕ
mem_u16 mem i = mem i + 256 * mem (i + 1)

abbrev pub data_size_at : (ℕ → ℕ) → ℕ → ℕ
data_size_at mem cur = mem_u16 mem (cur + 6) % 2048

abbrev pub cmd_follows_at : (ℕ → ℕ) → ℕ → Bool
cmd_follows_at mem cur = test_bit (mem_u16 mem (cur + 6)) 15

-- Whether a datagram in the queue answers a header.
abbrev pub matches : Datagram → ℕ → ℕ → ℕ → Bool
matches d index code size =
    (d.index == index) && is_sent d.state && (type_code d.type == code) && (d.data_size == size)

unfoldable pub find_match : (ℕ → Datagram) → List ℕ → ℕ → ℕ → ℕ → Option ℕ
find_match cells [] index code size = none
find_match cells (p ∷ ps) index code size =
    if matches (cells p) index code size then some p else find_match cells ps index code size

-- The write commands, whose data is not copied back.
abbrev pub is_write : DatagramType → Bool
is_write DatagramType.apwr = true
is_write DatagramType.fpwr = true
is_write DatagramType.bwr = true
is_write DatagramType.lwr = true
is_write _ = false

-- Filling in a received datagram: its data, working counter, state and time.
unfoldable pub deliver : Datagram → List ℕ → ℕ → ℕ → Datagram
deliver d bytes working_counter time = record d {
  buf = if is_write d.type then d.buf else copy_into bytes d.buf;
  working_counter = working_counter;
  state = DatagramState.received;
  jiffies_received = time;
}

-- One turn of the loop for the header at `cur`, once the size check has passed.
unfoldable pub accept : (ℕ → ℕ) → ℕ → ℕ → Master → Option ℕ → Master
unfolding unqueue_datagram
accept mem cur time m none = record m { unmatched = bump m.unmatched }
accept mem cur time m (some p) =
    let size = data_size_at mem cur in
    let d = deliver (m.cells p) (slice mem (cur + 10) size) (mem_u16 mem (cur + 10 + size)) time in
    unqueue_datagram (record m { cells = store m.cells p d }) p

unfoldable pub receive_loop : ℕ → (ℕ → ℕ) → ℕ → ℕ → ℕ → Master → Option Master
receive_loop zero mem size time cur m = none
receive_loop (suc fuel) mem size time cur m =
    let data_size = data_size_at mem cur in
    let found = find_match m.cells m.queue (mem (cur + 1)) (mem cur) data_size in
    let m' = accept mem cur time m found in
    let rest = receive_loop fuel mem size time (cur + 10 + data_size + 2) m' in
    if ltb size (cur + 10 + data_size + 2)
    then some (record m { corrupted = bump m.corrupted })
    else if cmd_follows_at mem cur
    then rest
    else some m'

unfoldable pub receive_datagrams : (ℕ → ℕ) → ℕ → Master → Option Master
receive_datagrams mem size m =
    let corrupt = record m { corrupted = bump m.corrupted } in
    let time = m.clock m.reads in
    let m' = record m { reads = m.reads + 1 } in
    if ltb size 2
    then some corrupt
    else if ltb size (mem_u16 mem 0 % 2048)
    then some (record m' { corrupted = bump m.corrupted })
    else receive_loop (suc size) mem size time 2 m'
