-- ===== src/Card/Serial/Order.antt =====
-- What leaves a span: the octets on its line and those that wait for it, over any number of
-- interrupts.
use chan_extra.Prelude.{
  ℕ, zero, suc, ◌+◌, ◌-◌, ◌%◌, ◌^◌, ◌≡◌, refl, sym, ap, ap₂, ◌∙◌, Bool, true, false, not, ◌&&◌,
  ◌||◌, Option, none, some, List, [], ◌∷◌, ◌++◌, append_assoc, append-nil, arith, inl, inr,
  Bool-cases, Option-cases, length, take, drop, ltb, ◌==◌, if◌then◌else◌, bind, min, bit_and,
}
use mathlib.Core.Path.{subst}
use chan_extra.Card.Port.{Port, Uart, received}
use chan_extra.Card.Serial.{
  g4_dchan_rx, g4_dchan_tx, g4_hdlc_rx, g4_hdlc_tx, hand_on, hdlc_loop, is_awake, send_buf,
  send_check, tasklet, wake,
}
use chan_extra.Card.Serial.Frames.{take-drop}
use chan_extra.Mux.Send.{Mux, send, gsm0710_write_frame}
use chan_extra.Mux.Channel.{gsm0710_extract_frames}
use chan_extra.Mux.Channel.Growth.{
  Grows, Grows-trans, extract_frames-Grows, same-Grows, send-Grows, write_frame-Grows,
}

-- What has left and what waits, in the order of leaving.
abbrev pub outgoing : Port → List ℕ
outgoing p = p.line ++ p.mux.tx

-- The outgoing octets have only grown at their end.
abbrev pub Continues : List ℕ → Option Port → Type 0
Continues out none = Unit
Continues out (some p) = (more : List ℕ) × (outgoing p ≡ out ++ more)

Continues-trans :
    (out : List ℕ) (p : Port) (more : List ℕ)
    → outgoing p ≡ out ++ more
    → (o : Option Port) → Continues (outgoing p) o
    → Continues out o
Continues-trans out p more e none h = tt
Continues-trans out p more e (some p') (more', e') =
    (more ++ more', e' ∙ ap (λ l. l ++ more') e ∙ append_assoc out more more')

bind-Continues :
    (out : List ℕ) (o : Option Port) (f : Port → Option Port)
    → Continues out o
    → ((p : Port) → Continues (outgoing p) (f p))
    → Continues out (bind o f)
bind-Continues out none f h k = tt
bind-Continues out (some p) f (more, e) k = Continues-trans out p more e (f p) (k p)

-- An operation of the multiplexer, with what it makes of the port.
mux-Continues :
    (p : Port) (o : Option Mux) (f : Mux → Port)
    → Grows p.mux.tx o
    → ((m : Mux) → (f m).line ≡ p.line)
    → ((m : Mux) → (f m).mux.tx ≡ m.tx)
    → Continues (outgoing p) (bind o (λ m. some (f m)))
mux-Continues p none f g line tx = tt
mux-Continues p (some m) f (more, e) line tx =
    (more, ap₂ (λ l k. l ++ k) (line m) (tx m ∙ e) ∙ sym (append_assoc p.line p.mux.tx more))

-- The transmitter takes octets from the front of those that wait.
dchan_tx-outgoing : (p : Port) (count_reg : ℕ) → outgoing (g4_dchan_tx p count_reg).0 ≡ outgoing p
unfolding g4_dchan_tx
dchan_tx-outgoing p count_reg =
    let n = min (length p.mux.tx) (1024 - bit_and count_reg 31) in
    append_assoc p.line (take n p.mux.tx) (drop n p.mux.tx)
    ∙ ap (λ l. p.line ++ l) (take-drop n p.mux.tx)

loop_step-Grows :
    (m : Mux) (c : List ℕ) (k : Mux → Option Mux)
    → ((m' : Mux) → Grows m'.tx (k m'))
    → Grows m.tx (bind (gsm0710_write_frame m 1 c 239) (λ sent. k sent.0))
loop_step-Grows m c k h =
    let g = write_frame-Grows m 1 c 239 in
    elim (Option-cases (gsm0710_write_frame m 1 c 239)) [
      | inl full ↦ rw full tt
      | inr (sent, e) ↦
          let (more, grown) = rw e at g in
          rw e (Grows-trans m.tx sent.0 more grown (k sent.0) (h sent.0))
    ]

hdlc_loop-Grows : (f : ℕ) (m : Mux) (buf : List ℕ) → Grows m.tx (hdlc_loop f m buf)
unfolding hdlc_loop
hdlc_loop-Grows zero m buf = same-Grows m
hdlc_loop-Grows (suc f) m buf = elim (Bool-cases (length buf == 0)) [
  | inl done ↦ rw (hdlc_loop, done) (same-Grows m)
  | inr left ↦ elim (Bool-cases (ltb (length buf) 127)) [
    | inl short ↦ rw (hdlc_loop, left, short) (write_frame-Grows m 1 buf 239)
    | inr long ↦
        rw (hdlc_loop, left, long)
          (loop_step-Grows m (take 127 buf) (λ m'. hdlc_loop f m' (drop 127 buf))
            (λ m'. hdlc_loop-Grows f m' (drop 127 buf)))
  ]
]

-- The end of a message, in `g4_hdlc_tx`.
abbrev finished : Port → Bool → ℕ → Port
finished p last count_reg =
    if last
    then record (g4_dchan_tx p count_reg).0 { sigactive = false; hdlc_pending = p.hdlc_pending - 1 }
    else p

same-Continues : (p : Port) → Continues (outgoing p) (some p)
same-Continues p = ([], sym (append-nil (outgoing p)))

finished-Continues :
    (p : Port) (last : Bool) (count_reg : ℕ)
    → Continues (outgoing p) (some (finished p last count_reg))
finished-Continues p true count_reg =
    ([], dchan_tx-outgoing p count_reg ∙ sym (append-nil (outgoing p)))
finished-Continues p false count_reg = same-Continues p

framed-Continues :
    (p : Port) (channel : ℕ) (input : List ℕ) (f : Mux → Port)
    → ((m : Mux) → (f m).line ≡ p.line)
    → ((m : Mux) → (f m).mux.tx ≡ m.tx)
    → Continues
        (outgoing p)
        (bind (gsm0710_write_frame p.mux channel input 239) (λ sent. some (f sent.0)))
framed-Continues p channel input f line tx =
    let g = write_frame-Grows p.mux channel input 239 in
    elim (Option-cases (gsm0710_write_frame p.mux channel input 239)) [
      | inl full ↦ rw full tt
      | inr (sent, e) ↦
          let grown = rw e at g in rw e (mux-Continues p (some sent.0) f grown line tx)
    ]

check_over :
    (p : Port) (over : Bool)
    → Continues (outgoing p) (some (if over then record p { check_number = 0 } else p))
check_over p true = same-Continues p
check_over p false = same-Continues p

if-Continues :
    (out : List ℕ) (c : Bool) (a b : Option Port)
    → Continues out a
    → Continues out b
    → Continues out (if c then a else b)
if-Continues out true a b h k = h
if-Continues out false a b h k = k

send_buf-Continues : (p : Port) (buf : List ℕ) → Continues (outgoing p) (send_buf p buf)
unfolding send_buf
send_buf-Continues p buf =
    if-Continues (outgoing p) p.enabled
      (bind (hdlc_loop (length buf) p.mux buf) (λ m. some (record p { mux = m })))
      (bind (send p.mux buf) (λ m. some (record p { mux = m })))
      (mux-Continues p (hdlc_loop (length buf) p.mux buf) (λ m. record p { mux = m })
        (hdlc_loop-Grows (length buf) p.mux buf) (λ m. refl) (λ m. refl))
      (mux-Continues p (send p.mux buf) (λ m. record p { mux = m }) (send-Grows p.mux buf)
        (λ m. refl) (λ m. refl))

send_check-Continues : (p : Port) → Continues (outgoing p) (send_check p)
unfolding send_check
send_check-Continues p =
    let at : List ℕ = b'A' ∷ b'T' ∷ 13 ∷ 10 ∷ [] in
    let with_mux : Mux → Port =
      λ m. record p { check_start = false; check_number = p.intcount; mux = m } in
    if-Continues (outgoing p) p.enabled
      (bind (gsm0710_write_frame p.mux 0 at 239) (λ sent. some (with_mux sent.0)))
      (bind (send p.mux at) (λ m. some (with_mux m)))
      (framed-Continues p 0 at with_mux (λ m. refl) (λ m. refl))
      (mux-Continues p (send p.mux at) with_mux (send-Grows p.mux at) (λ m. refl) (λ m. refl))

hand_on-Continues : (p : Port) → Continues (outgoing p) (hand_on p)
unfolding hand_on
hand_on-Continues p =
    if-Continues (outgoing p) (p.enabled && p.mode)
      (bind (gsm0710_extract_frames p.mux (received p))
        (λ mux. some (record p { mux = mux; d_rx_idx = 0 })))
      (some
        (record p { mux = record p.mux { hdlc = p.mux.hdlc ++ (received p ∷ []) }; d_rx_idx = 0 }))
      (mux-Continues p (gsm0710_extract_frames p.mux (received p))
        (λ mux. record p { mux = mux; d_rx_idx = 0 }) (extract_frames-Grows p.mux (received p))
        (λ m. refl) (λ m. refl))
      (same-Continues p)

wake-outgoing : (p : Port) → outgoing (wake p) ≡ outgoing p
unfolding wake
wake-outgoing p = elim (Bool-cases (not p.power_on_flag && is_awake p)) [
  | inl first ↦ rw (wake, first) refl
  | inr known ↦ rw (wake, known) refl
]

hdlc_rx-Continues : (checknumber : ℕ) (p : Port) → Continues (outgoing p) (g4_hdlc_rx checknumber p)
unfolding g4_hdlc_rx
hdlc_rx-Continues checknumber p =
    let over =
      not p.power_on_flag
      && (not (p.check_number == 0)
          && ltb checknumber ((p.intcount + 2 ^ 32 - p.check_number) % 2 ^ 32)) in
    if-Continues (outgoing p) (not (p.d_rx_idx == 0) && p.d_rx_recv == 0) (hand_on (wake p))
      (some (if over then record p { check_number = 0 } else p))
      (subst (λ out. Continues out (hand_on (wake p))) (wake-outgoing p)
        (hand_on-Continues (wake p)))
      (check_over p over)

hdlc_tx-Continues :
    (p : Port) (buf : List ℕ) (last : Bool) (count_reg : ℕ)
    → Continues (outgoing p) (g4_hdlc_tx p buf last count_reg)
unfolding g4_hdlc_tx
hdlc_tx-Continues p buf last count_reg =
    let active : Port = record p { sigactive = true } in
    if-Continues (outgoing p) (p.check_start && not p.power_on_flag) (send_check p)
      (if p.hdlc_pending == 0 || length buf == 0
        then some p
        else bind (send_buf active buf) (λ p1. some (finished p1 last count_reg)))
      (send_check-Continues p)
      (if-Continues (outgoing p) (p.hdlc_pending == 0 || length buf == 0) (some p)
        (bind (send_buf active buf) (λ p1. some (finished p1 last count_reg))) (same-Continues p)
        (bind-Continues (outgoing p) (send_buf active buf) (λ p1. some (finished p1 last count_reg))
          (send_buf-Continues active buf) (λ p1. finished-Continues p1 last count_reg)))

dchan_rx-outgoing : (p : Port) (fifo : List ℕ) → outgoing (g4_dchan_rx p fifo).0 ≡ outgoing p
unfolding g4_dchan_rx
dchan_rx-outgoing p fifo = ground arith

-- What follows the frames and the messages in an interrupt.
abbrev received_then_sent : Port → Uart → Port
received_then_sent p uart =
    let (p2, fifo, n) = g4_dchan_rx p uart.fifo in
    let p3 : Port = record p2 { d_rx_recv = n } in
    if length p3.mux.tx == 0 then p3 else (g4_dchan_tx p3 uart.count_reg).0

received_then_sent-outgoing :
    (p : Port) (uart : Uart) → outgoing (received_then_sent p uart) ≡ outgoing p
received_then_sent-outgoing p uart =
    let p2 = (g4_dchan_rx p uart.fifo).0 in
    let p3 : Port = record p2 { d_rx_recv = (g4_dchan_rx p uart.fifo).2 } in
    let kept = dchan_rx-outgoing p uart.fifo in
    elim (Bool-cases (length p3.mux.tx == 0)) [
      | inl idle ↦ rw idle kept
      | inr waits ↦ rw waits (dchan_tx-outgoing p3 uart.count_reg ∙ kept)
    ]

from_ran :
    (p q : Port) (uart : Uart) (fifo : List ℕ) (ran : Option Port)
    → Continues (outgoing p) ran
    → bind {B = Port × List ℕ} ran
        (λ p1. some (received_then_sent p1 uart, (g4_dchan_rx p1 uart.fifo).1))
      ≡ some (q, fifo)
    → (more : List ℕ) × (outgoing q ≡ outgoing p ++ more)
from_ran p q uart fifo none c h = cc
from_ran p q uart fifo (some p1) (more, e) h =
    let same : received_then_sent p1 uart ≡ q = cc in
    (more, ap outgoing (sym same) ∙ received_then_sent-outgoing p1 uart ∙ e)

-- An interrupt, and what it makes of the port.
tasklet-Continues :
    (checknumber : ℕ) (p q : Port) (uart : Uart) (buf fifo : List ℕ) (last : Bool)
    → tasklet checknumber p uart buf last ≡ some (q, fifo)
    → (more : List ℕ) × (outgoing q ≡ outgoing p ++ more)
unfolding tasklet
tasklet-Continues checknumber p q uart buf fifo last h =
    let ran : Option Port =
      if p.running
      then bind (g4_hdlc_tx p buf last uart.count_reg) (g4_hdlc_rx checknumber)
      else some p in
    let c : Continues (outgoing p) ran =
      if-Continues (outgoing p) p.running
        (bind (g4_hdlc_tx p buf last uart.count_reg) (g4_hdlc_rx checknumber)) (some p)
        (bind-Continues (outgoing p) (g4_hdlc_tx p buf last uart.count_reg) (g4_hdlc_rx checknumber)
          (hdlc_tx-Continues p buf last uart.count_reg) (hdlc_rx-Continues checknumber))
        (same-Continues p) in
    from_ran p q uart fifo ran c h

-- Interrupts one after the other. Between two of them the receiver gets more octets; what is sent
-- on the signalling channel and the count of the transmitter are any.
pub data Run (checknumber : ℕ) : Port → List ℕ → Port → List ℕ → Type 0 where
  stay : {p : Port} {fifo : List ℕ} → Run checknumber p fifo p fifo
  tick :
      {p p1 q : Port} {fifo fifo1 fifo2 : List ℕ} (new buf : List ℕ) (last : Bool) (count_reg : ℕ)
      → tasklet checknumber p (record { fifo = fifo ++ new; count_reg = count_reg }) buf last
        ≡ some (p1, fifo1)
      → Run checknumber p1 fifo1 q fifo2
      → Run checknumber p fifo q fifo2

-- Over any number of interrupts, none of which writes past the end of a buffer, the octets that have
-- left and those that wait stay as they are and in order: none is lost, doubled or overtaken, and
-- what is sent comes behind them.
pub run-outgoing :
    {checknumber : ℕ} {p q : Port} {fifo fifo' : List ℕ}
    → Run checknumber p fifo q fifo'
    → (more : List ℕ) × (q.line ++ q.mux.tx ≡ (p.line ++ p.mux.tx) ++ more)
run-outgoing {p} stay = ([], sym (append-nil (outgoing p)))
run-outgoing {checknumber} {p} {q} {fifo} {fifo'}
      (tick {p1} {fifo1} new buf last count_reg e rest) =
    let (more, first) =
      tasklet-Continues checknumber p p1 (record { fifo = fifo ++ new; count_reg = count_reg }) buf
        fifo1 last e in
    let (more', then_more) = run-outgoing rest in
    (more ++ more', then_more ∙ ap (λ l. l ++ more') first ∙ append_assoc (outgoing p) more more')
