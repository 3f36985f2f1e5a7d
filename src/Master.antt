-- ===== src/Master.antt =====
-- src/ec_master.c, the datagram queue: the state that ec_master_queue_datagram,
-- ec_master_send_datagrams, ec_master_receive_datagrams and ec_master_send work on, and the queue
-- operations. Pointers to datagrams are numbers, `cells` is the memory they point to, and the
-- linked list `datagram_queue` is the list of its pointers from head to tail. `wakeups` logs each
-- ec_osal_sem_give on a datagram's semaphore, `frames` each frame handed to ec_netdev_send, both
-- newest last. `clock n` is the n-th value that ec_timestamp_get_time_ns returns.
pub mod Frame
pub mod Send
pub mod Receive
pub mod Cycle
pub mod Queue
pub mod Retire
pub mod Complete
pub mod Progress
pub mod Drained
pub mod Wire
pub mod Whole
pub mod Period
pub mod Control
pub mod Delivery
use cherry_ecat.Prelude.{
  ℕ, ◌+◌, List, [], ◌∷◌, ◌++◌, Bool, true, false, if◌then◌else◌, ◌==◌, ◌||◌, ◌%◌, u32_mod,
}
use cherry_ecat.Datagram.{Datagram, DatagramState}

-- The datagram part of ec_master_t with ec_master_stats_t.
pub record Master : Type 0 where
  pub cells : ℕ → Datagram
  pub queue : List ℕ
  pub datagram_index : ℕ
  pub timeouts : ℕ
  pub corrupted : ℕ
  pub unmatched : ℕ
  pub wakeups : List ℕ
  pub frames : List (ℕ × List ℕ)
  pub clock : ℕ → ℕ
  pub reads : ℕ

-- `counter++` on an unsigned int.
abbrev pub bump : ℕ → ℕ
bump n = (n + 1) % u32_mod

-- A write through the pointer `p`.
abbrev pub store : (ℕ → Datagram) → ℕ → Datagram → ℕ → Datagram
store cells p d q = if p == q then d else cells q

abbrev pub contains : ℕ → List ℕ → Bool
contains p [] = false
contains p (q ∷ ps) = q == p || contains p ps

-- Unlinking the node of `p`.
abbrev pub remove : ℕ → List ℕ → List ℕ
remove p [] = []
remove p (q ∷ ps) = if q == p then ps else q ∷ remove p ps

abbrev pub put_state : (ℕ → Datagram) → ℕ → DatagramState → ℕ → Datagram
put_state cells p s = store cells p (record (cells p) { state = s })

-- ec_master_queue_datagram
unfoldable pub queue_datagram : Master → ℕ → Master
queue_datagram m p =
    if contains p m.queue
    then record m { cells = put_state m.cells p DatagramState.queued }
    else record m { queue = m.queue ++ p ∷ []; cells = put_state m.cells p DatagramState.queued }

-- ec_master_unqueue_datagram
unfoldable pub unqueue_datagram : Master → ℕ → Master
unqueue_datagram m p =
    let m' = record m { queue = remove p m.queue } in
    if (m.cells p).waiter
    then record m' {
      cells = store m.cells p (record (m.cells p) { waiter = false });
      wakeups = m.wakeups ++ p ∷ [];
    }
    else m'

-- A reading of `jiffies`.
unfoldable pub jiffies : Master → ℕ × Master
jiffies m = (m.clock m.reads, record m { reads = m.reads + 1 })
