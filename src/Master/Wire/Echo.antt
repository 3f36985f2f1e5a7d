-- ===== src/Master/Wire/Echo.antt =====
-- The round trip: a frame that ec_master_send_datagrams built, received back.
use cherry_ecat.Prelude.{
  ℕ, ◌+◌, ◌-◌, ◌%◌, ◌≤◌, ◌<◌, ◌≡◌, ◌∙◌, List, [], ◌∷◌, ◌++◌, some, arith, length, length-append, ap,
  read_u8, map, replicate, subst, sym, ap₂, bytes_u16,
}
use cherry_ecat.Datagram.{type_code}
use cherry_ecat.Master.{Master}
use cherry_ecat.Master.Frame.{slice, fill_frame}
use cherry_ecat.Master.Send.{finish_frame, start_fill}
use cherry_ecat.Master.Receive.{receive_datagrams}
use cherry_ecat.Master.Wire.{length-encode, length-slice, length-fill_frame}
use cherry_ecat.Master.Wire.Layout.{Item, word, item_bytes, wire, number, body-eq-wire}
use cherry_ecat.Master.Wire.Replay.{Answer, answers, take_answers, Holds, IsAnswer, AreAnswers}
use cherry_ecat.Master.Wire.Parse.{reply_frame, receive_datagrams-answers}

-- What a datagram that no slave has touched looks like to the receiver.
abbrev pub untouched : Item → Answer
untouched (d, i) = record {
  code = type_code d.type;
  index = i % 256;
  a0 = read_u8 d.address 0;
  a1 = read_u8 d.address 1;
  a2 = read_u8 d.address 2;
  a3 = read_u8 d.address 3;
  irq0 = 0;
  irq1 = 0;
  bytes = slice (read_u8 d.buf) 0 d.data_size;
  working_counter = 0;
}

size_untouched : (x : Item) → length (untouched x).bytes ≡ x.0.data_size
size_untouched (d, i) = length-slice (read_u8 d.buf) 0 d.data_size

word-untouched : (x : Item) → x.0.data_size < 2048 → word x ≡ length (untouched x).bytes
word-untouched x h = omega (arith, size_untouched x)

wire-answers :
    (x : Item) (its : List Item)
    → length (wire (x ∷ its)) < 2048
    → (wire (x ∷ its) ≡ answers (untouched x) (map untouched its))
      × IsAnswer (untouched x)
      × AreAnswers (map untouched its)
wire-answers x [] h =
    let k : x.0.data_size < 2048 = omega (arith, length-encode x.0 x.1 (word x)) in
    (ap (item_bytes x) (word-untouched x k), omega (arith, size_untouched x), tt)
wire-answers x (y ∷ its) h =
    let e = length-append (item_bytes x (word x + 32768)) (wire (y ∷ its)) in
    let l = length-encode x.0 x.1 (word x + 32768) in
    let k : x.0.data_size < 2048 = omega (arith, e, l) in
    let rest = wire-answers y its (omega (arith, e)) in
    (
      ap₂ ◌++◌ (ap (λ (w : ℕ). item_bytes x (w + 32768)) (word-untouched x k)) rest.0,
      omega (arith, size_untouched x),
      (rest.1, rest.2),
    )

finish_short :
    (body : List ℕ)
    → length body < 2048
    → finish_frame body
      ≡ bytes_u16 (length body + 4096) ++ (body ++ replicate (46 - (2 + length body)) 0)
unfolding finish_frame
finish_short body h =
    ap (λ (k : ℕ). bytes_u16 (k + 4096) ++ (body ++ replicate (46 - (2 + length body)) 0))
      (omega arith)

-- A frame that ec_master_send_datagrams builds from the queue, if a memory holds it unchanged, is
-- read by ec_master_receive_datagrams as exactly the datagrams that were put into it, in their
-- order, each under its index and with its data, and without a corruption.
pub receive_datagrams-echo :
    (n : ℕ) (m m' : Master) (mem : ℕ → ℕ) (p : ℕ) (ps : List ℕ)
    → let f = fill_frame n m.queue (start_fill m) in
      f.sent ≡ p ∷ ps
      → Holds mem 0 (finish_frame f.body)
      → receive_datagrams mem (length (finish_frame f.body)) m'
        ≡ some (
            take_answers
              (m'.clock m'.reads)
              (map untouched (number m.cells m.datagram_index (p ∷ ps)))
              (record m' { reads = m'.reads + 1 }))
receive_datagrams-echo n m m' mem p ps e h =
    subst
      (λ frame.
        Holds mem 0 frame
        → receive_datagrams mem (length frame) m'
          ≡ some (
              take_answers (m'.clock m'.reads) (first ∷ others)
                (record m' { reads = m'.reads + 1 })))
      (sym frame_eq) (receive_datagrams-answers mem first others pad m' parts.1 parts.2 short) h
  where
    body : List ℕ
    body = (fill_frame n m.queue (start_fill m)).body

    items : List Item
    items = number m.cells ((m.datagram_index + 1) % 256) ps

    first : Answer
    first = untouched (m.cells p, m.datagram_index)

    others : List Answer
    others = map untouched items

    body_eq : body ≡ wire ((m.cells p, m.datagram_index) ∷ items)
    body_eq = body-eq-wire n m ∙ ap (λ s. wire (number m.cells m.datagram_index s)) e

    bound : length body ≤ 1498
    bound = length-fill_frame n m.queue (start_fill m) (omega arith)

    parts :
        (wire ((m.cells p, m.datagram_index) ∷ items) ≡ answers first others)
        × IsAnswer first
        × AreAnswers others
    parts =
        wire-answers (m.cells p, m.datagram_index) items (omega (arith, bound, ap length body_eq))

    short : length (answers first others) < 2048
    short = omega (arith, bound, ap length body_eq, ap length parts.0)

    pad : List ℕ
    pad = replicate (46 - (2 + length (answers first others))) 0

    frame_eq : finish_frame body ≡ reply_frame first others pad
    frame_eq = ap finish_frame (body_eq ∙ parts.0) ∙ finish_short (answers first others) short
