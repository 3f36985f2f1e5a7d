-- ===== src/Master/Cycle.antt =====
-- src/ec_master.c, ec_master_send: the timed-out datagrams leave the queue, then each network
-- device sends its frames, or, where its link is down, its datagrams leave the queue with an
-- error. `links` holds the link state of each device. The statistics of the devices
-- (ec_netdev_update_stats and their reset) are left out.
use cherry_ecat.Prelude.{
  ℕ, ◌+◌, List, [], ◌∷◌, Option, none, some, Bool, true, false, ltb, ◌==◌, if◌then◌else◌, sub_mod,
  u64_mod,
}
use cherry_ecat.Datagram.{DatagramState}
use cherry_ecat.Master.{Master, bump, put_state, unqueue_datagram, jiffies}
use cherry_ecat.Master.Frame.{is_sent}
use cherry_ecat.Master.Send.{send_datagrams}

-- EC_DATAGRAM_TIMEOUT_NS, 50 ms.
abbrev pub datagram_timeout_ns : ℕ
datagram_timeout_ns = 50000000

-- A datagram leaves the queue in a final state.
unfoldable pub drop_datagram : Master → ℕ → DatagramState → Master
unfolding unqueue_datagram
drop_datagram m p s = unqueue_datagram (record m { cells = put_state m.cells p s }) p

-- The body of the timeout loop, at the datagram `p`.
unfoldable pub expire : Master → ℕ → Master
unfolding drop_datagram jiffies
expire m p =
    let (time, m') = jiffies m in
    let late = ltb datagram_timeout_ns (sub_mod u64_mod time (m.cells p).jiffies_sent) in
    let m'' = record m' { timeouts = bump m'.timeouts } in
    if is_sent (m.cells p).state
    then if late then drop_datagram m'' p DatagramState.timed_out else m'
    else m

unfoldable pub expire_all : List ℕ → Master → Master
expire_all [] m = m
expire_all (p ∷ ps) m = expire_all ps (expire m p)

-- The loop over the queue for a device whose link is down.
unfoldable pub fail_all : ℕ → List ℕ → Master → Master
fail_all netdev_idx [] m = m
fail_all netdev_idx (p ∷ ps) m =
    fail_all netdev_idx ps
      (if (m.cells p).netdev_idx == netdev_idx then drop_datagram m p DatagramState.error else m)

unfoldable pub send_devices : ℕ → List Bool → Master → Option Master
send_devices netdev_idx [] m = some m
send_devices netdev_idx (true ∷ links) m = elim (send_datagrams netdev_idx m) [
  | none ↦ none
  | some m' ↦ send_devices (netdev_idx + 1) links m'
]
send_devices netdev_idx (false ∷ links) m =
    send_devices (netdev_idx + 1) links (fail_all netdev_idx m.queue m)

-- ec_master_send
unfoldable pub send : List Bool → Master → Option Master
send links m = send_devices 0 links (expire_all m.queue m)
