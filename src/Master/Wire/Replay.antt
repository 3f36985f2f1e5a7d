-- ===== src/Master/Wire/Replay.antt =====
-- The receiver against frames as lists of answers: what ec_master_receive_datagrams does with a
-- frame that holds the answers, one after the other.
use cherry_ecat.Prelude.{
  ℕ, zero, suc, ◌+◌, ◌/◌, ◌%◌, ◌<◌, ◌≡◌, ◌∙◌, refl, List, [], ◌∷◌, ◌++◌, Option, none, some, arith,
  length, length-append, ap, get_or, get_or-append, ap₂, bytes_u16,
}
use cherry_ecat.Master.{Master, bump, store, unqueue_datagram}
use cherry_ecat.Master.Frame.{slice}
use cherry_ecat.Master.Receive.{mem_u16, data_size_at, find_match, deliver, accept}

-- What a frame holds for one datagram: command, index, the six bytes of the address and the
-- interrupt field, which the receiver does not read, data and working counter.
pub record Answer : Type 0 where
  pub code : ℕ
  pub index : ℕ
  pub a0 : ℕ
  pub a1 : ℕ
  pub a2 : ℕ
  pub a3 : ℕ
  pub irq0 : ℕ
  pub irq1 : ℕ
  pub bytes : List ℕ
  pub working_counter : ℕ

abbrev header : Answer → ℕ → List ℕ
header a w =
    a.code ∷ a.index ∷ a.a0 ∷ a.a1 ∷ a.a2 ∷ a.a3 ∷ w % 256 ∷ w / 256 % 256 ∷ a.irq0 ∷ a.irq1 ∷ []

abbrev tail_bytes : Answer → List ℕ
tail_bytes a = a.bytes ++ bytes_u16 a.working_counter

-- The answer's bytes with the length word `w`.
abbrev pub answer_bytes : Answer → ℕ → List ℕ
answer_bytes a w = header a w ++ tail_bytes a

-- All answers of a frame, the flag set in all but the last.
abbrev pub answers : Answer → List Answer → List ℕ
answers a [] = answer_bytes a (length a.bytes)
answers a (b ∷ r) = answer_bytes a (length a.bytes + 32768) ++ answers b r

-- What the receiver does with one answer: it completes the datagram that waits for it, or counts
-- the answer as unmatched.
abbrev pub complete : ℕ → Answer → Master → Option ℕ → Master
complete time a m none = record m { unmatched = bump m.unmatched }
complete time a m (some p) =
    unqueue_datagram
      (record m { cells = store m.cells p (deliver (m.cells p) a.bytes a.working_counter time) }) p

abbrev pub take_answer : ℕ → Answer → Master → Master
take_answer time a m =
    complete time a m (find_match m.cells m.queue a.index a.code (length a.bytes))

abbrev pub take_answers : ℕ → List Answer → Master → Master
take_answers time [] m = m
take_answers time (a ∷ r) m = take_answers time r (take_answer time a m)

-- The memory holds a list of bytes from an address on.
abbrev pub Holds : (ℕ → ℕ) → ℕ → List ℕ → Type 0
Holds mem cur xs = (k : ℕ) → k < length xs → mem (cur + k) ≡ get_or xs k 0

pub Holds-left :
    (mem : ℕ → ℕ) (cur : ℕ) (xs ys : List ℕ) → Holds mem cur (xs ++ ys) → Holds mem cur xs
Holds-left mem cur xs ys h k l = h k (omega (arith, length-append xs ys)) ∙ get_or_left xs k l
  where
    get_or_left : (xs : List ℕ) (k : ℕ) → k < length xs → get_or (xs ++ ys) k 0 ≡ get_or xs k 0
    get_or_left [] k l = absurd (omega arith)
    get_or_left (x ∷ xs) zero l = refl
    get_or_left (x ∷ xs) (suc k) l = get_or_left xs k (omega arith)

pub Holds-right :
    (mem : ℕ → ℕ) (cur : ℕ) (xs ys : List ℕ)
    → Holds mem cur (xs ++ ys)
    → Holds mem (cur + length xs) ys
Holds-right mem cur xs ys h k l =
    ap mem (omega arith)
    ∙ h (length xs + k) (omega (arith, length-append xs ys))
    ∙ get_or-append xs ys (length xs + k) k 0 refl

slice-Holds :
    (mem : ℕ → ℕ) (cur n : ℕ) (xs : List ℕ)
    → length xs ≡ n
    → Holds mem cur xs
    → slice mem cur n ≡ xs
slice-Holds mem cur zero [] e h = refl
slice-Holds mem cur zero (x ∷ xs) e h = absurd (omega arith)
slice-Holds mem cur (suc n) [] e h = absurd (omega arith)
slice-Holds mem cur (suc n) (x ∷ xs) e h = ap₂ ◌∷◌ (ap mem (omega arith) ∙ h 0 (omega arith)) (
    slice-Holds mem (cur + 1) n xs (omega arith)
      λ k l. ap mem (omega arith) ∙ h (suc k) (omega arith))

-- Reading one answer: each field comes back.
module _ (mem : ℕ → ℕ) (cur : ℕ) (a : Answer) (w : ℕ) (small : w < 65536) where
  pub read_code : Holds mem cur (answer_bytes a w) → mem cur ≡ a.code
  read_code h = ap mem (omega arith) ∙ h 0 (omega arith)

  pub read_index : Holds mem cur (answer_bytes a w) → mem (cur + 1) ≡ a.index
  read_index h = h 1 (omega arith)

  pub read_word : Holds mem cur (answer_bytes a w) → mem_u16 mem (cur + 6) ≡ w
  read_word h = omega (arith, h 6 (omega arith), ap mem shift ∙ h 7 (omega arith))
    where
      shift : cur + 6 + 1 ≡ cur + 7
      shift = omega arith

  pub read_rest : Holds mem cur (answer_bytes a w) → Holds mem (cur + 10) (tail_bytes a)
  read_rest h k l =
      ap mem (omega arith)
      ∙ h (10 + k) (omega arith)
      ∙ get_or-append (header a w) (tail_bytes a) (10 + k) k 0 refl

  pub read_bytes :
      Holds mem cur (answer_bytes a w) → slice mem (cur + 10) (length a.bytes) ≡ a.bytes
  read_bytes h =
      slice-Holds mem (cur + 10) (length a.bytes) a.bytes refl
        (Holds-left mem (cur + 10) a.bytes (bytes_u16 a.working_counter) (read_rest h))

  pub read_counter :
      a.working_counter < 65536
      → Holds mem cur (answer_bytes a w)
      → mem_u16 mem (cur + 10 + length a.bytes) ≡ a.working_counter
  read_counter c h = omega (arith, low, tail 1 (omega arith))
    where
      tail : Holds mem (cur + 10 + length a.bytes) (bytes_u16 a.working_counter)
      tail = Holds-right mem (cur + 10) a.bytes (bytes_u16 a.working_counter) (read_rest h)

      low : mem (cur + 10 + length a.bytes) ≡ a.working_counter % 256
      low = ap mem (omega arith) ∙ tail 0 (omega arith)

-- The limits of the fields of an answer: 11 bits of length, 16 bits of working counter.
pub record IsAnswer (a : Answer) : Type 0 where
  pub short : length a.bytes < 2048
  pub counter : a.working_counter < 65536

abbrev pub AreAnswers : List Answer → Type 0
AreAnswers [] = Unit {0}
AreAnswers (a ∷ r) = IsAnswer a × AreAnswers r

pub accept-complete :
    (mem : ℕ → ℕ) (cur t n : ℕ) (a : Answer) (m : Master) (o : Option ℕ)
    → data_size_at mem cur ≡ n
    → slice mem (cur + 10) n ≡ a.bytes
    → mem_u16 mem (cur + 10 + n) ≡ a.working_counter
    → accept mem cur t m o ≡ complete t a m o
unfolding accept
accept-complete mem cur t n a m none e b c = refl
accept-complete mem cur t n a m (some p) e b c = simp (e, b, c)
