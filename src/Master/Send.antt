-- ===== src/Master/Send.antt =====
-- src/ec_master.c, ec_master_send_datagrams: frames are filled, padded and handed to the network
-- device until no datagram that fits is left waiting. The result of ec_netdev_send is only logged
-- by the source and is left out. The outer loop is bounded by fuel; Progress shows that the fuel
-- which `send_datagrams` gives is enough.
use cherry_ecat.Prelude.{
  ℕ, zero, suc, ◌+◌, ◌-◌, ◌%◌, List, [], ◌∷◌, ◌++◌, Option, none, some, Bool, true, false, length,
  bytes_u16, replicate, if◌then◌else◌,
}
use cherry_ecat.Datagram.{Datagram, DatagramState}
use cherry_ecat.Master.{Master, store, jiffies}
use cherry_ecat.Master.Frame.{Fill, fill_frame}

-- The frame header in front of the body, and the padding to ETH_ZLEN - ETH_HLEN = 46 bytes.
unfoldable pub finish_frame : List ℕ → List ℕ
finish_frame body =
    (bytes_u16 (length body % 2048 + 4096) ++ body) ++ replicate (46 - (2 + length body)) 0

-- The loop that sets the states and the sending time of the datagrams of one frame.
unfoldable pub mark_sent : ℕ → List ℕ → (ℕ → Datagram) → ℕ → Datagram
mark_sent time [] cells = cells
mark_sent time (p ∷ ps) cells =
    mark_sent time ps
      (store cells p (record (cells p) { state = DatagramState.sent; jiffies_sent = time }))

abbrev pub start_fill : Master → Fill
start_fill m = record {
  cells = m.cells;
  index = m.datagram_index;
  body = [];
  sent = [];
  follows_word = none;
  more = false;
}

-- What one round does with a frame that holds a datagram.
unfoldable pub send_frame : ℕ → Master → Fill → Master
unfolding jiffies
send_frame netdev_idx m f = record m {
  cells = mark_sent (m.clock m.reads) f.sent f.cells;
  datagram_index = f.index;
  frames = m.frames ++ (netdev_idx, finish_frame f.body) ∷ [];
  reads = m.reads + 1;
}

abbrev pub is_empty : List ℕ → Bool
is_empty [] = true
is_empty (p ∷ ps) = false

unfoldable pub send_rounds : ℕ → ℕ → Master → Option Master
send_rounds zero netdev_idx m = none
send_rounds (suc fuel) netdev_idx m =
    let f = fill_frame netdev_idx m.queue (start_fill m) in
    let again = send_rounds fuel netdev_idx (send_frame netdev_idx m f) in
    if is_empty f.sent then some m else if f.more then again else some (send_frame netdev_idx m f)

unfoldable pub send_datagrams : ℕ → Master → Option Master
send_datagrams netdev_idx m = send_rounds (suc (length m.queue)) netdev_idx m
