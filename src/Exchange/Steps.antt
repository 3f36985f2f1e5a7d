-- ===== src/Exchange/Steps.antt =====
-- What one call of ec_master_queue_ext_datagram of src/ec_master.c does to the state of its caller.
use cherry_ecat.Prelude.{
  ℕ, ◌≡◌, refl, sym, ap, ◌+◌, arith, List, [], ◌∷◌, ◌++◌, Bool, true, false, if◌then◌else◌, length,
  ◌==◌,
}
use cherry_ecat.Datagram.{Datagram, DatagramState}
use cherry_ecat.Exchange.{
  Io, Out, ok, err, asserted, blocked, Errno, Event, finish_wait, queue_ext_datagram, wait,
}

-- From `w` on, `n` events are used and the datagrams `ds` are queued; the clock goes on by `k` readings.
-- A blocked run had no more than these events.
pub record Stepped (w : Io) (n k : ℕ) (ds : List Datagram) (w' : Io) : Type 0 where
  pub events : n + length w'.events ≡ length w.events
  pub clock : w'.clock ≡ w.clock
  pub reads : w'.reads ≡ w.reads + k
  pub log : w'.log ≡ w.log ++ ds
  pub slave_count : w'.slave_count ≡ w.slave_count

-- The datagram as it is queued.
abbrev pub queued : Io → Datagram
queued w = record (w.datagram) { waiter = true; state = DatagramState.queued }

abbrev pub Slept : Io → Out (Unit {0}) × Io → Type 0
Slept w (ok a, w') = Stepped w 1 0 (queued w ∷ []) w' × (w'.slaves ≡ w.slaves)
Slept w (err e, w') = Unit
Slept w (asserted, w') = Unit
Slept w (blocked, w') = w.events ≡ []

Slept-received :
    (b : Bool) (w w' : Io)
    → Stepped w 1 0 (queued w ∷ []) w'
    → w'.slaves ≡ w.slaves
    → Slept w (if b then err Errno.wc else ok tt, w')
Slept-received true w w' s e = tt
Slept-received false w w' s e = (s, e)

pub Slept-queue_ext_datagram : (b : Bool) (w : Io) → Slept w (queue_ext_datagram b true w)
unfolding queue_ext_datagram wait finish_wait
Slept-queue_ext_datagram b w = go w.events refl
  where
    go :
        (es : List Event)
        → w.events ≡ es
        → Slept w (
            wait es (record w {
              datagram = queued w;
              log = w.log ++ queued w ∷ [];
              polls = if b then w.polls + 1 else w.polls;
            }))
    go [] e = e
    go (Event.received c bytes ∷ es) e =
        Slept-received (c == 0) w _
          (record {
            events = omega (arith, ap length (sym e));
            clock = refl;
            reads = omega arith;
            log = refl;
            slave_count = refl;
          })
          refl
    go (Event.timed_out ∷ es) e = tt
    go (Event.failed ∷ es) e = tt
    go (Event.spurious ∷ es) e = tt
    go (Event.sem_error n ∷ es) e = tt
