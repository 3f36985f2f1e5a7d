-- ===== src/Exchange.antt =====
-- src/ec_master.c, ec_master_queue_ext_datagram, as the code above the datagram queue sees it: a
-- datagram is queued, the caller sleeps on its semaphore, and wakes with the datagram in the state
-- that ec_master_receive_datagrams or ec_master_send gave it (module Master). What the other
-- threads and the bus do meanwhile is the list of `events`, one for each sleep, first one next; with
-- no event left the caller sleeps for ever. `clock n` is the n-th value of ec_timestamp_get_time_ns.
-- EC_ASSERT_MSG stops the caller in an endless loop.
pub mod Facts
pub mod Steps
use cherry_ecat.Prelude.{
  ℕ, ◌+◌, List, [], ◌∷◌, ◌++◌, Bool, true, false, if◌then◌else◌, ◌==◌, read_u8,
}
use cherry_ecat.Datagram.{Datagram, DatagramState}
use cherry_ecat.Master.Frame.{slice}
use cherry_ecat.Master.Receive.{deliver}
use cherry_ecat.Slave.{Slave}

-- include/ec_errno.h: the error codes that the modelled functions return, negated in the source,
-- and an error of the operating system's semaphore.
pub data Errno : Type 0 where
  nomem inval timeout nosupp io wc alerr sii mbox mbox_empty : Errno
  coe_type coe_size coe_request coe_toggle coe_abort unknown : Errno
  os : ℕ → Errno

-- How a sleep ends. The bytes of a received datagram are cut or filled up with 0 to its size.
pub data Event : Type 0 where
  received : ℕ → List ℕ → Event
  timed_out failed spurious : Event
  sem_error : ℕ → Event

-- The state that the functions work on: the slaves of the master, the datagram that the caller
-- passes, the datagrams queued so far, newest last, the wake-ups of the thread that sends them, and
-- the bytes copied into the caller's buffer.
pub record Io : Type 0 where
  pub slaves : ℕ → Slave
  pub slave_count : ℕ
  pub datagram : Datagram
  pub events : List Event
  pub log : List Datagram
  pub polls : ℕ
  pub clock : ℕ → ℕ
  pub reads : ℕ
  pub written : List ℕ

-- A return value: a result (0 in the source), an error, a failed assertion, or no return.
pub data Out {ℓ} (A : Type ℓ) : Type ℓ where
  ok : A → Out A
  err : Errno → Out A
  asserted blocked : Out A

abbrev pub M : Type 0 → Type 0
M A = Io → Out A × Io

abbrev pub pure : {A : Type 0} → A → M A
pure a w = (ok a, w)

abbrev pub fail : {A : Type 0} → Errno → M A
fail e w = (err e, w)

abbrev pub next : {A B : Type 0} → Out A × Io → (A → M B) → Out B × Io
next (ok a, w) f = f a w
next (err e, w) f = (err e, w)
next (asserted, w) f = (asserted, w)
next (blocked, w) f = (blocked, w)

infixl 5 ◌>>=◌ ◌>>◌
abbrev pub ◌>>=◌ : {A B : Type 0} → M A → (A → M B) → M B
◌>>=◌ m f w = next (m w) f

abbrev pub ◌>>◌ : {B : Type 0} → M (Unit {0}) → M B → M B
m >> k = m >>= λ _. k

-- No return.
abbrev pub block : {A : Type 0} → M A
block w = (blocked, w)

-- EC_ASSERT_MSG
abbrev pub assert : Bool → M (Unit {0})
assert true w = (ok tt, w)
assert false w = (asserted, w)

-- `if (b) return -e;`
abbrev pub fail_if : Bool → Errno → M (Unit {0})
fail_if true e w = (err e, w)
fail_if false e w = (ok tt, w)

abbrev pub get : M Io
get w = (ok w, w)

abbrev pub edit : (Datagram → Datagram) → M (Unit {0})
edit f w = (ok tt, record w { datagram = f w.datagram })

abbrev pub edit_slave : ℕ → (Slave → Slave) → M (Unit {0})
edit_slave i f w = (ok tt, record w { slaves = λ j. if i == j then f (w.slaves i) else w.slaves j })

-- `jiffies`
abbrev pub jiffies : M ℕ
jiffies w = (ok (w.clock w.reads), record w { reads = w.reads + 1 })

-- memcpy to the caller's buffer, which it fills from its start on.
abbrev pub emit : List ℕ → M (Unit {0})
emit bytes w = (ok tt, record w { written = w.written ++ bytes })

-- The waiting caller's end: how the sleep ends decides what is returned.
unfoldable pub finish_wait : Event → Io → Out (Unit {0}) × Io
finish_wait (received counter bytes) w =
    let d =
      deliver w.datagram (slice (read_u8 bytes) 0 w.datagram.data_size) counter (w.clock w.reads) in
    (if counter == 0 then err wc else ok tt, record w { datagram = record d { waiter = false } })
finish_wait timed_out w = (
  err timeout,
  record w { datagram = record (w.datagram) { state = DatagramState.timed_out; waiter = false } },
)
finish_wait failed w = (
  err io,
  record w { datagram = record (w.datagram) { state = DatagramState.error; waiter = false } },
)
finish_wait spurious w = (err unknown, w)
finish_wait (sem_error e) w = (err (os e), w)

unfoldable pub wait : List Event → Io → Out (Unit {0}) × Io
unfolding finish_wait
wait [] w = (blocked, w)
wait (e ∷ es) w = finish_wait e (record w { events = es })

-- ec_master_queue_ext_datagram, after ec_master_init has created the semaphore of the thread.
unfoldable pub queue_ext_datagram : Bool → Bool → M (Unit {0})
unfolding wait
queue_ext_datagram wakep_poll waiter w =
    let d = record (w.datagram) { waiter = waiter; state = DatagramState.queued } in
    let w' = record w {
      datagram = d;
      log = w.log ++ d ∷ [];
      polls = if wakep_poll then w.polls + 1 else w.polls;
    } in
    if waiter then wait w.events w' else (ok tt, w')
