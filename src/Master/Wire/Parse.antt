-- ===== src/Master/Wire/Parse.antt =====
-- ec_master_receive_datagrams on a frame that holds a list of answers takes each of them, in order;
-- and on a frame that comes back as it was sent it finds exactly the datagrams of the frame.
use cherry_ecat.Prelude.{
  ℕ, zero, suc, ◌+◌, ◌%◌, ◌≤◌, ◌<◌, ◌≡◌, refl, List, [], ◌∷◌, ◌++◌, some, true, false, ltb, arith,
  length, length-append, bytes_u16,
}
use cherry_ecat.Master.{Master}
use cherry_ecat.Master.Receive.{
  mem_u16, data_size_at, cmd_follows_at, find_match, accept, receive_loop, receive_datagrams,
}
use cherry_ecat.Master.Wire.Replay.{
  Answer, answer_bytes, answers, take_answer, take_answers, Holds, Holds-left, Holds-right,
  read_code, read_index, read_word, read_bytes, read_counter, IsAnswer, AreAnswers, accept-complete,
}

-- One turn of the loop, at an answer with the length word `w`.
module _ (mem : ℕ → ℕ) (cur : ℕ) (a : Answer) (w : ℕ) (ok : IsAnswer a) where
  size_of_word :
      w % 2048 ≡ length a.bytes
      → w < 65536
      → Holds mem cur (answer_bytes a w)
      → data_size_at mem cur ≡ length a.bytes
  size_of_word e s h = omega (arith, read_word mem cur a w s h)

  accept-take :
      (t : ℕ) (m : Master)
      → w % 2048 ≡ length a.bytes
      → w < 65536
      → Holds mem cur (answer_bytes a w)
      → accept mem cur t m
          (find_match m.cells m.queue (mem (cur + 1)) (mem cur) (data_size_at mem cur))
        ≡ take_answer t a m
  accept-take t m e s h =
      rw (read_index mem cur a w s h, read_code mem cur a w s h, size_of_word e s h)
        (accept-complete mem cur t (length a.bytes) a m
          (find_match m.cells m.queue a.index a.code (length a.bytes)) (size_of_word e s h)
          (read_bytes mem cur a w s h) (read_counter mem cur a w s ok.counter h))

length-answer_bytes : (a : Answer) (w : ℕ) → length (answer_bytes a w) ≡ 12 + length a.bytes
length-answer_bytes a w = omega (arith, length-append a.bytes (bytes_u16 a.working_counter))

count-le : (a : Answer) (r : List Answer) → length r ≤ length (answers a r)
count-le a [] = omega arith
count-le a (c ∷ r) = omega (
  arith,
  count-le c r,
  length-append (answer_bytes a (length a.bytes + 32768)) (answers c r),
  length-answer_bytes a (length a.bytes + 32768),
)

pub receive_loop-answers :
    (fuel : ℕ) (mem : ℕ → ℕ) (size t cur : ℕ) (a : Answer) (r : List Answer) (m : Master)
    → IsAnswer a
    → AreAnswers r
    → Holds mem cur (answers a r)
    → cur + length (answers a r) ≤ size
    → length r < fuel
    → receive_loop fuel mem size t cur m ≡ some (take_answers t (a ∷ r) m)
unfolding receive_loop
receive_loop-answers zero mem size t cur a r m ok oks h b f = absurd (omega arith)
receive_loop-answers (suc fuel) mem size t cur a [] m ok oks h b f =
    rw (fits, last, accept-take mem cur a n ok t m (omega arith) (omega arith) h) refl
  where
    n : ℕ
    n = length a.bytes

    fits : ltb size (cur + 10 + data_size_at mem cur + 2) ≡ false
    fits =
        ground (
          arith,
          size_of_word mem cur a n ok (omega arith) (omega arith) h,
          length-answer_bytes a n,
        )

    last : cmd_follows_at mem cur ≡ false
    last = ground (arith, read_word mem cur a n (omega arith) h)
receive_loop-answers (suc fuel) mem size t cur a (c ∷ r) m ok oks h b f =
    rw (fits, more, accept-take mem cur a w ok t m (omega arith) (omega arith) here)
      (rw next (
        receive_loop-answers fuel mem size t (cur + length (answer_bytes a w)) c r _ oks.0 oks.1
          there (omega (arith, length-append (answer_bytes a w) (answers c r))) (omega arith)))
  where
    w : ℕ
    w = length a.bytes + 32768

    here : Holds mem cur (answer_bytes a w)
    here = Holds-left mem cur (answer_bytes a w) (answers c r) h

    there : Holds mem (cur + length (answer_bytes a w)) (answers c r)
    there = Holds-right mem cur (answer_bytes a w) (answers c r) h

    next : cur + 10 + data_size_at mem cur + 2 ≡ cur + length (answer_bytes a w)
    next = omega (
      arith,
      size_of_word mem cur a w ok (omega arith) (omega arith) here,
      length-answer_bytes a w,
    )

    fits : ltb size (cur + 10 + data_size_at mem cur + 2) ≡ false
    fits = ground (arith, next, length-append (answer_bytes a w) (answers c r))

    more : cmd_follows_at mem cur ≡ true
    more = ground (arith, read_word mem cur a w (omega arith) here)

-- A received frame: the header with the number of bytes that follow, then the answers, then
-- padding.
abbrev pub reply_frame : Answer → List Answer → List ℕ → List ℕ
reply_frame a r pad = bytes_u16 (length (answers a r) + 4096) ++ (answers a r ++ pad)

pub receive_datagrams-answers :
    (mem : ℕ → ℕ) (a : Answer) (r : List Answer) (pad : List ℕ) (m : Master)
    → IsAnswer a
    → AreAnswers r
    → length (answers a r) < 2048
    → Holds mem 0 (reply_frame a r pad)
    → receive_datagrams mem (length (reply_frame a r pad)) m
      ≡ some (take_answers (m.clock m.reads) (a ∷ r) (record m { reads = m.reads + 1 }))
unfolding receive_datagrams
receive_datagrams-answers mem a r pad m ok oks s h =
    rw (two, whole)
      (receive_loop-answers (suc size) mem size (m.clock m.reads) 2 a r _ ok oks body
        (omega (arith, size_eq)) (omega (arith, size_eq, count-le a r)))
  where
    size : ℕ
    size = length (reply_frame a r pad)

    size_eq : size ≡ 2 + (length (answers a r) + length pad)
    size_eq = omega (arith, length-append (answers a r) pad)

    two : ltb size 2 ≡ false
    two = ground (arith, size_eq)

    head : mem_u16 mem 0 ≡ length (answers a r) + 4096
    head = omega (arith, h 0 (omega (arith, size_eq)), h 1 (omega (arith, size_eq)))

    whole : ltb size (mem_u16 mem 0 % 2048) ≡ false
    whole = ground (arith, size_eq, head)

    body : Holds mem 2 (answers a r)
    body =
        Holds-left mem 2 (answers a r) pad
          (Holds-right mem 0 (bytes_u16 (length (answers a r) + 4096)) (answers a r ++ pad) h)
