-- ===== src/Exchange/Facts.antt =====
-- The waits of src/ec_master.c, ec_master_queue_ext_datagram, and of what is composed of them: how
-- many events a computation uses, and that nothing but a sleep without an event blocks it.
use cherry_ecat.Prelude.{
  ℕ, suc, ◌+◌, ◌≤◌, ◌≡◌, refl, List, [], ◌∷◌, if◌then◌else◌, Bool, true, false, length, arith, ◌==◌,
}
use cherry_ecat.Exchange.{
  fail_if, assert, Io, Out, ok, err, asserted, blocked, M, Errno, Event, next, finish_wait,
  queue_ext_datagram, wait,
}

-- A run from `n` events on that has an answer used at least `k` of them, a blocked one used up all.
abbrev pub Post : {A : Type 0} → ℕ → ℕ → Out A × Io → Type 0
Post k n (ok a, w) = length w.events + k ≤ n
Post k n (err e, w) = Unit
Post k n (asserted, w) = Unit
Post k n (blocked, w) = w.events ≡ []

pub Post-weaken :
    {A : Type 0} (j k m n : ℕ) (r : Out A × Io) → m + j ≤ n → Post k m r → Post (j + k) n r
Post-weaken j k m n (ok b, w) h q = omega arith
Post-weaken j k m n (err e, w) h q = tt
Post-weaken j k m n (asserted, w) h q = tt
Post-weaken j k m n (blocked, w) h q = q

-- What follows an answer.
pub Post-next :
    {A B : Type 0} (j k n : ℕ) (r : Out A × Io) (f : A → M B)
    → Post j n r
    → ((a : A) (w : Io) → length w.events + j ≤ n → Post k (length w.events) (f a w))
    → Post (j + k) n (next r f)
Post-next j k n (ok a, w) f h g = Post-weaken j k (length w.events) n (f a w) h (g a w h)
Post-next j k n (err e, w) f h g = tt
Post-next j k n (asserted, w) f h g = tt
Post-next j k n (blocked, w) f h g = h

Post-received :
    (b : Bool) (n : ℕ) (w : Io)
    → length w.events + 1 ≤ n
    → Post 1 n (if b then err Errno.wc else ok tt, w)
Post-received true n w h = tt
Post-received false n w h = h

pub Post-finish_wait :
    (e : Event) (n : ℕ) (w : Io) → length w.events + 1 ≤ n → Post 1 n (finish_wait e w)
unfolding finish_wait
Post-finish_wait (Event.received c bytes) n w h = Post-received (c == 0) n _ h
Post-finish_wait Event.timed_out n w h = tt
Post-finish_wait Event.failed n w h = tt
Post-finish_wait Event.spurious n w h = tt
Post-finish_wait (Event.sem_error e) n w h = tt

pub Post-wait : (es : List Event) (w : Io) → w.events ≡ es → Post 1 (length es) (wait es w)
unfolding wait
Post-wait [] w h = h
Post-wait (e ∷ es) w h =
    Post-finish_wait e (suc (length es)) (record w { events = es }) (omega arith)

pub Post-queue_ext_datagram :
    (b : Bool) (w : Io) → Post 1 (length w.events) (queue_ext_datagram b true w)
unfolding queue_ext_datagram
Post-queue_ext_datagram b w = Post-wait w.events _ refl

pub Post-then :
    {A B : Type 0} (j n : ℕ) (r : Out A × Io) (f : A → M B)
    → Post j n r
    → ((a : A) (w : Io) → length w.events + j ≤ n → Post 0 (length w.events) (f a w))
    → Post 0 n (next r f)
Post-then j n (ok a, w) f h g = Post-weaken 0 0 (length w.events) n (f a w) (omega arith) (g a w h)
Post-then j n (err e, w) f h g = tt
Post-then j n (asserted, w) f h g = tt
Post-then j n (blocked, w) f h g = h

pub Post-fail_if : (b : Bool) (e : Errno) (w : Io) → Post 0 (length w.events) (fail_if b e w)
Post-fail_if true e w = tt
Post-fail_if false e w = omega arith

pub Post-assert : (b : Bool) (w : Io) → Post 0 (length w.events) (assert b w)
Post-assert true w = omega arith
Post-assert false w = tt

pub Post-if :
    {A : Type 0} (b : Bool) (k n : ℕ) (m m' : M A) (w : Io)
    → Post k n (m w)
    → Post k n (m' w)
    → Post k n ((if b then m else m') w)
Post-if true k n m m' w h h' = h
Post-if false k n m m' w h h' = h'

pub Post-if_with :
    {A : Type 0} (b : Bool) (k n : ℕ) (m m' : M A) (w : Io)
    → (b ≡ true → Post k n (m w))
    → (b ≡ false → Post k n (m' w))
    → Post k n ((if b then m else m') w)
Post-if_with true k n m m' w h h' = h refl
Post-if_with false k n m m' w h h' = h' refl

-- To count fewer events.
pub Post-drop : {A : Type 0} (k n : ℕ) (r : Out A × Io) → Post k n r → Post 0 n r
Post-drop k n (ok a, w) h = omega arith
Post-drop k n (err e, w) h = tt
Post-drop k n (asserted, w) h = tt
Post-drop k n (blocked, w) h = h

-- A property of the answer and of the state that it is given in.
abbrev pub Gives : {A : Type 0} → (A → Io → Type 0) → Out A × Io → Type 0
Gives P (ok a, w) = P a w
Gives P (err e, w) = Unit
Gives P (asserted, w) = Unit
Gives P (blocked, w) = Unit

pub Gives-next :
    {A B : Type 0} (P : A → Io → Type 0) (Q : B → Io → Type 0) (r : Out A × Io) (f : A → M B)
    → Gives P r
    → ((a : A) (w : Io) → P a w → Gives Q (f a w))
    → Gives Q (next r f)
Gives-next P Q (ok a, w) f h g = g a w h
Gives-next P Q (err e, w) f h g = tt
Gives-next P Q (asserted, w) f h g = tt
Gives-next P Q (blocked, w) f h g = tt

-- A run may have any answer.
pub Gives-any : {A : Type 0} (r : Out A × Io) → Gives (λ a w. Unit) r
Gives-any (ok a, w) = tt
Gives-any (err e, w) = tt
Gives-any (asserted, w) = tt
Gives-any (blocked, w) = tt

pub Gives-if :
    {A : Type 0} (P : A → Io → Type 0) (b : Bool) (m m' : M A) (w : Io)
    → (b ≡ true → Gives P (m w))
    → (b ≡ false → Gives P (m' w))
    → Gives P ((if b then m else m') w)
Gives-if P true m m' w h h' = h refl
Gives-if P false m m' w h h' = h' refl

pub Gives-fail_if :
    (b : Bool) (e : Errno) (w : Io) → Gives (λ a w'. (b ≡ false) × (w' ≡ w)) (fail_if b e w)
Gives-fail_if true e w = tt
Gives-fail_if false e w = (refl, refl)

pub Gives-map :
    {A : Type 0} (P Q : A → Io → Type 0) (r : Out A × Io)
    → Gives P r
    → ((a : A) (w : Io) → P a w → Q a w)
    → Gives Q r
Gives-map P Q (ok a, w) h f = f a w h
Gives-map P Q (err e, w) h f = tt
Gives-map P Q (asserted, w) h f = tt
Gives-map P Q (blocked, w) h f = tt
