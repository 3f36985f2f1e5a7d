-- ===== src/Master/Wire/Layout.antt =====
-- The body of a frame as a list of datagrams: the code sets the "datagram following" flag of a
-- datagram when it adds the next one; here each datagram is written once, with its flag.
use cherry_ecat.Prelude.{
  ℕ, ◌+◌, ◌*◌, ◌/◌, ◌%◌, ◌<◌, ◌≡◌, ◌∙◌, refl, List, [], ◌∷◌, ◌++◌, Option, none, some, Bool-cases,
  arith, inl, inr, length, length-append, ap, get_or-append, set-append, append_assoc, sym, ap₂,
}
use cherry_ecat.Datagram.{Datagram}
use cherry_ecat.Master.Frame.{
  Fill, fill_frame, add_datagram, encode, set_follows, or_follows, eligible, too_long,
}
use cherry_ecat.Master.{Master}
use cherry_ecat.Master.Send.{start_fill}
use cherry_ecat.Master.Wire.{length-encode, length-set_follows}

-- A datagram with the index that it was sent under.
abbrev pub Item : Type 0
Item = Datagram × ℕ

abbrev pub word : Item → ℕ
word (d, i) = d.data_size % 2048

abbrev pub item_bytes : Item → ℕ → List ℕ
item_bytes (d, i) w = encode d i w

-- The last datagram of a body has no flag.
abbrev pub wire : List Item → List ℕ
wire [] = []
wire (x ∷ []) = item_bytes x (word x)
wire (x ∷ y ∷ r) = item_bytes x (word x + 32768) ++ wire (y ∷ r)

-- Setting the flag in the length word of the last datagram.
set_follows-encode :
    (pre : List ℕ) (d : Datagram) (i w : ℕ)
    → w < 2048
    → set_follows (pre ++ encode d i w) (some (length pre + 6)) ≡ pre ++ encode d i (w + 32768)
set_follows-encode pre d i w h =
    rw
      (
        get_or-append pre (encode d i w) (length pre + 6) 6 0 refl,
        get_or-append pre (encode d i w) (length pre + 6 + 1) 7 0 (omega arith),
        set-append pre (encode d i w) (length pre + 6) 6 _ refl,
        set-append pre _ (length pre + 6 + 1) 7 _ (omega arith),
      )
      (rw flag refl)
  where
    flag : or_follows (w % 256 + 256 * (w / 256 % 256)) ≡ w + 32768
    flag = ground arith

-- In a longer body the flag is set in the last part.
set_follows-append :
    (pre body : List ℕ) (n k : ℕ)
    → n ≡ length pre + k
    → set_follows (pre ++ body) (some n) ≡ pre ++ set_follows body (some k)
set_follows-append pre body n k h =
    rw
      (
        get_or-append pre body n k 0 h,
        get_or-append pre body (n + 1) (k + 1) 0 (omega arith),
        set-append pre body n k _ h,
        set-append pre _ (n + 1) (k + 1) _ (omega arith),
      )
      refl

-- Where the length word of the last datagram stands.
abbrev pub last_word : Item → List Item → ℕ
last_word x [] = 6
last_word x (y ∷ r) = 12 + x.0.data_size + last_word y r

abbrev pub follows_of : List Item → Option ℕ
follows_of [] = none
follows_of (x ∷ r) = some (last_word x r)

wire-snoc :
    (its : List Item) (z : Item)
    → wire (its ++ z ∷ []) ≡ set_follows (wire its) (follows_of its) ++ item_bytes z (word z)
wire-snoc [] z = refl
wire-snoc (x ∷ []) z =
    ap (λ t. t ++ item_bytes z (word z))
      (sym (set_follows-encode [] x.0 x.1 (word x) (omega arith)))
wire-snoc (x ∷ y ∷ r) z =
    rw
      (
        wire-snoc (y ∷ r) z,
        set_follows-append (item_bytes x (word x + 32768)) (wire (y ∷ r)) (last_word x (y ∷ r))
            (last_word y r) (omega (arith, length-encode x.0 x.1 (word x + 32768))),
      )
      (sym (
        append_assoc (item_bytes x (word x + 32768))
          (set_follows (wire (y ∷ r)) (some (last_word y r))) (item_bytes z (word z))))

last_word-snoc :
    (x : Item) (r : List Item) (z : Item) → last_word x (r ++ z ∷ []) ≡ length (wire (x ∷ r)) + 6
last_word-snoc x [] z = omega (arith, length-encode x.0 x.1 (word x))
last_word-snoc x (y ∷ r) z = omega (
  arith,
  last_word-snoc y r z,
  length-append (item_bytes x (word x + 32768)) (wire (y ∷ r)),
  length-encode x.0 x.1 (word x + 32768),
)

follows_of-snoc :
    (its : List Item) (z : Item) → follows_of (its ++ z ∷ []) ≡ some (length (wire its) + 6)
follows_of-snoc [] z = refl
follows_of-snoc (x ∷ r) z = ap some (last_word-snoc x r z)

-- Pointers with the consecutive indices that they are sent under, counted in a uint8_t.
abbrev pub number : (ℕ → Datagram) → ℕ → List ℕ → List Item
number cells i [] = []
number cells i (p ∷ ps) = (cells p, i) ∷ number cells ((i + 1) % 256) ps

abbrev advance : ℕ → List ℕ → ℕ
advance i [] = i
advance i (p ∷ ps) = advance ((i + 1) % 256) ps

number-snoc :
    (cells : ℕ → Datagram) (i : ℕ) (ps : List ℕ) (p : ℕ)
    → number cells i (ps ++ p ∷ []) ≡ number cells i ps ++ (cells p, advance i ps) ∷ []
number-snoc cells i [] p = refl
number-snoc cells i (q ∷ ps) p = ap (λ t. (cells q, i) ∷ t) (number-snoc cells ((i + 1) % 256) ps p)

advance-snoc : (i : ℕ) (ps : List ℕ) (p : ℕ) → advance i (ps ++ p ∷ []) ≡ (advance i ps + 1) % 256
advance-snoc i [] p = refl
advance-snoc i (q ∷ ps) p = advance-snoc ((i + 1) % 256) ps p

-- What the code knows while it fills a frame, from the datagrams `cells` and the index `i` on.
record IsFilling (cells : ℕ → Datagram) (i : ℕ) (f : Fill) : Type 0 where
  same : (q : ℕ) → f.cells q ≡ record (cells q) { index = (f.cells q).index }
  bytes : f.body ≡ wire (number cells i f.sent)
  flag : f.follows_word ≡ follows_of (number cells i f.sent)
  next : f.index ≡ advance i f.sent

add_datagram-IsFilling :
    (cells : ℕ → Datagram) (i : ℕ) (f : Fill) (p : ℕ)
    → IsFilling cells i f
    → IsFilling cells i (add_datagram f p)
unfolding add_datagram
add_datagram-IsFilling cells i f p v = record {
  same = λ q. indexed q;
  bytes =
      rw
        (
          number-snoc cells i f.sent p,
          wire-snoc (number cells i f.sent) (cells p, advance i f.sent),
        )
        (ap₂ ◌++◌ body_eq item_eq);
  flag =
      rw
        (
          number-snoc cells i f.sent p,
          follows_of-snoc (number cells i f.sent) (cells p, advance i f.sent),
        )
        (ap some (omega (arith, length-set_follows f.body f.follows_word, ap length v.bytes)));
  next = rw (advance-snoc i f.sent p) (ap (λ (k : ℕ). (k + 1) % 256) v.next);
}
  where
    indexed :
        (q : ℕ)
        → (add_datagram f p).cells q
          ≡ record (cells q) { index = ((add_datagram f p).cells q).index }
    indexed q = ground (arith, v.same q, v.same p)

    body_eq :
        set_follows f.body f.follows_word
        ≡ set_follows (wire (number cells i f.sent)) (follows_of (number cells i f.sent))
    body_eq = ap₂ set_follows v.bytes v.flag

    item_eq :
        encode (f.cells p) f.index ((f.cells p).data_size % 2048)
        ≡ encode (cells p) (advance i f.sent) ((cells p).data_size % 2048)
    item_eq =
        ap (λ d. encode d f.index (d.data_size % 2048)) (v.same p)
        ∙ ap (λ (k : ℕ). encode (cells p) k ((cells p).data_size % 2048)) v.next

fill_frame-IsFilling :
    (cells : ℕ → Datagram) (i n : ℕ) (ps : List ℕ) (f : Fill)
    → IsFilling cells i f
    → IsFilling cells i (fill_frame n ps f)
unfolding fill_frame
fill_frame-IsFilling cells i n [] f v = v
fill_frame-IsFilling cells i n (p ∷ ps) f v = elim (Bool-cases (eligible n (f.cells p))) [
  | inl e ↦ rw e (elim (Bool-cases (too_long f.body (f.cells p))) [
    | inl t ↦ rw t (record { same = v.same; bytes = v.bytes; flag = v.flag; next = v.next })
    | inr t ↦ rw t (
        fill_frame-IsFilling cells i n ps (add_datagram f p) (add_datagram-IsFilling cells i f p v))
  ])
  | inr e ↦ rw e (fill_frame-IsFilling cells i n ps f v)
]

-- The body of each frame that ec_master_send_datagrams fills is the datagrams that it takes from
-- the queue, in their order, each as its header, data and an empty working counter, with
-- consecutive indices from the master's on, and with the flag "datagram following" in all but the
-- last.
pub body-eq-wire :
    (n : ℕ) (m : Master)
    → let f = fill_frame n m.queue (start_fill m) in
      f.body ≡ wire (number m.cells m.datagram_index f.sent)
body-eq-wire n m =
    (fill_frame-IsFilling m.cells m.datagram_index n m.queue (start_fill m)
      (record { same = λ q. refl; bytes = refl; flag = refl; next = refl })).bytes
