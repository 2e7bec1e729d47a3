-- ===== src/Card/Serial/Overflow.antt =====
-- A span that has more to receive than its buffer has room for.
use mathlib.Core.Path.{subst}
use chan_extra.Prelude.{
  ℕ, zero, suc, ◌+◌, ◌-◌, ◌%◌, ◌^◌, ◌≤◌, ◌<◌, ◌≡◌, ◌≢◌, refl, sym, ap, ap₂, ◌∙◌, Bool, true, false,
  not, ◌&&◌, ◌||◌, append-nil, append_assoc, Option, none, some, List, [], ◌∷◌, ◌++◌, arith, inl,
  inr, Bool-cases, Option-cases, length, take, drop, ltb, leb, ◌==◌, if◌then◌else◌, bind,
  length-append,
}
use chan_extra.Card.Port.{Port, Uart}
use chan_extra.Card.Serial.{
  g4_dchan_rx, g4_dchan_tx, g4_hdlc_rx, g4_hdlc_tx, hdlc_loop, send_buf, send_check, tasklet,
}
use chan_extra.Card.Serial.Order.{Run, stay, tick}
use chan_extra.Mux.Send.{Mux, ser_buf_size, send, gsm0710_write_frame, frame_octets}

-- What the signalling channel and the terminal have been given.
abbrev Gave : List (List ℕ) → List (List ℕ) → Option Mux → Type 0
Gave hdlc tty none = Unit
Gave hdlc tty (some m) = (m.hdlc ≡ hdlc) × (m.tty ≡ tty)

send-Gave : (m : Mux) (octets : List ℕ) → Gave m.hdlc m.tty (send m octets)
unfolding send
send-Gave m octets = elim (Bool-cases (leb (length m.tx + length octets) 4096)) [
  | inl fits ↦ rw (send, fits) (refl, refl)
  | inr over ↦ rw (send, over) tt
]

write_frame-Gave :
    (m : Mux) (channel : ℕ) (input : List ℕ) (k : Mux → Option Mux)
    → ((m' : Mux) → Gave m'.hdlc m'.tty (k m'))
    → Gave m.hdlc m.tty (bind (gsm0710_write_frame m channel input 239) (λ sent. k sent.0))
unfolding gsm0710_write_frame
write_frame-Gave m channel input k h =
    let g = send-Gave m (frame_octets channel 239 input) in
    elim (Option-cases (send m (frame_octets channel 239 input))) [
      | inl full ↦ rw full tt
      | inr (m', sent) ↦
          let (hdlc, tty) = rw sent at g in
          rw sent
            (subst (λ l. Gave l m.tty (k m')) hdlc (subst (λ l. Gave m'.hdlc l (k m')) tty (h m')))
    ]

hdlc_loop-Gave : (f : ℕ) (m : Mux) (buf : List ℕ) → Gave m.hdlc m.tty (hdlc_loop f m buf)
unfolding hdlc_loop
hdlc_loop-Gave zero m buf = (refl, refl)
hdlc_loop-Gave (suc f) m buf = elim (Bool-cases (length buf == 0)) [
  | inl done ↦ rw (hdlc_loop, done) (refl, refl)
  | inr left ↦ elim (Bool-cases (ltb (length buf) 127)) [
    | inl short ↦
        rw (hdlc_loop, left, short) (write_frame-Gave m 1 buf (λ m'. some m') (λ m'. (refl, refl)))
    | inr long ↦
        rw (hdlc_loop, left, long)
          (write_frame-Gave m 1 (take 127 buf) (λ m'. hdlc_loop f m' (drop 127 buf))
            (λ m'. hdlc_loop-Gave f m' (drop 127 buf)))
  ]
]

-- What has come in, and what has become of it.
abbrev pub inbox : Port → ℕ × List ℕ × List (List ℕ) × List (List ℕ)
inbox p = (p.d_rx_idx, p.d_rx_buf, p.mux.hdlc, p.mux.tty)

-- An operation that leaves these alone, and the count of the last look at the receiver.
abbrev Leaves : Port → Option Port → Type 0
Leaves p none = Unit
Leaves p (some p') = (inbox p' ≡ inbox p) × (p'.d_rx_recv ≡ p.d_rx_recv)

mux-Leaves :
    (p : Port) (o : Option Mux) (f : Mux → Port)
    → Gave p.mux.hdlc p.mux.tty o
    → ((m : Mux) → inbox (f m) ≡ (p.d_rx_idx, p.d_rx_buf, m.hdlc, m.tty))
    → ((m : Mux) → (f m).d_rx_recv ≡ p.d_rx_recv)
    → Leaves p (bind o (λ m. some (f m)))
mux-Leaves p none f g box recv = tt
mux-Leaves p (some m) f (hdlc, tty) box recv = (
  box m
      ∙ ap₂ {C = ℕ × List ℕ × List (List ℕ) × List (List ℕ)} (λ h t. (p.d_rx_idx, p.d_rx_buf, h, t))
          hdlc tty,
  recv m,
)

if-Leaves :
    (p : Port) (c : Bool) (a b : Option Port)
    → Leaves p a
    → Leaves p b
    → Leaves p (if c then a else b)
if-Leaves p true a b h k = h
if-Leaves p false a b h k = k

framed-Leaves :
    (p : Port) (channel : ℕ) (input : List ℕ) (f : Mux → Port)
    → ((m : Mux) → inbox (f m) ≡ (p.d_rx_idx, p.d_rx_buf, m.hdlc, m.tty))
    → ((m : Mux) → (f m).d_rx_recv ≡ p.d_rx_recv)
    → Leaves p (bind (gsm0710_write_frame p.mux channel input 239) (λ sent. some (f sent.0)))
framed-Leaves p channel input f box recv =
    let g = write_frame-Gave p.mux channel input (λ m. some m) (λ m. (refl, refl)) in
    elim (Option-cases (gsm0710_write_frame p.mux channel input 239)) [
      | inl full ↦ rw full tt
      | inr (sent, e) ↦ let gave = rw e at g in rw e (mux-Leaves p (some sent.0) f gave box recv)
    ]

send_check-Leaves : (p : Port) → Leaves p (send_check p)
unfolding send_check
send_check-Leaves p =
    let at : List ℕ = b'A' ∷ b'T' ∷ 13 ∷ 10 ∷ [] in
    let with_mux : Mux → Port =
      λ m. record p { check_start = false; check_number = p.intcount; mux = m } in
    if-Leaves p p.enabled
      (bind (gsm0710_write_frame p.mux 0 at 239) (λ sent. some (with_mux sent.0)))
      (bind (send p.mux at) (λ m. some (with_mux m)))
      (framed-Leaves p 0 at with_mux (λ m. refl) (λ m. refl))
      (mux-Leaves p (send p.mux at) with_mux (send-Gave p.mux at) (λ m. refl) (λ m. refl))

send_buf-Leaves : (p : Port) (buf : List ℕ) → Leaves p (send_buf p buf)
unfolding send_buf
send_buf-Leaves p buf =
    if-Leaves p p.enabled
      (bind (hdlc_loop (length buf) p.mux buf) (λ m. some (record p { mux = m })))
      (bind (send p.mux buf) (λ m. some (record p { mux = m })))
      (mux-Leaves p (hdlc_loop (length buf) p.mux buf) (λ m. record p { mux = m })
        (hdlc_loop-Gave (length buf) p.mux buf) (λ m. refl) (λ m. refl))
      (mux-Leaves p (send p.mux buf) (λ m. record p { mux = m }) (send-Gave p.mux buf) (λ m. refl)
        (λ m. refl))

finished-Leaves :
    (p : Port) (o : Option Port) (last : Bool) (count_reg : ℕ)
    → Leaves p o
    → Leaves p (
        bind o (λ p1. some (
          if last
          then record (g4_dchan_tx p1 count_reg).0 {
            sigactive = false;
            hdlc_pending = p1.hdlc_pending - 1;
          }
          else p1)))
unfolding g4_dchan_tx
finished-Leaves p none last count_reg h = tt
finished-Leaves p (some p1) true count_reg h = h
finished-Leaves p (some p1) false count_reg h = h

hdlc_tx-Leaves :
    (p : Port) (buf : List ℕ) (last : Bool) (count_reg : ℕ)
    → Leaves p (g4_hdlc_tx p buf last count_reg)
unfolding g4_hdlc_tx
hdlc_tx-Leaves p buf last count_reg =
    let sent = send_buf (record p { sigactive = true }) buf in
    let then_finished : Option Port = bind sent (λ p1. some (
      if last
      then record (g4_dchan_tx p1 count_reg).0 {
        sigactive = false;
        hdlc_pending = p1.hdlc_pending - 1;
      }
      else p1)) in
    if-Leaves p (p.check_start && not p.power_on_flag) (send_check p)
      (if p.hdlc_pending == 0 || length buf == 0 then some p else then_finished)
      (send_check-Leaves p)
      (if-Leaves p (p.hdlc_pending == 0 || length buf == 0) (some p) then_finished (refl, refl)
        (finished-Leaves p sent last count_reg
          (send_buf-Leaves (record p { sigactive = true }) buf)))

-- While the last look at the receiver has found octets none is handed on.
hdlc_rx_waits : (checknumber : ℕ) (p : Port) → p.d_rx_recv ≢ 0 → Leaves p (g4_hdlc_rx checknumber p)
unfolding g4_hdlc_rx
hdlc_rx_waits checknumber p busy =
    let over =
      not p.power_on_flag
      && (not (p.check_number == 0)
          && ltb checknumber ((p.intcount + 2 ^ 32 - p.check_number) % 2 ^ 32)) in
    let waits : (not (p.d_rx_idx == 0) && p.d_rx_recv == 0) ≡ false = ground arith in
    elim (Bool-cases over) [
      | inl ended ↦ rw (g4_hdlc_rx, waits, ended) (refl, refl)
      | inr goes ↦ rw (g4_hdlc_rx, waits, goes) (refl, refl)
    ]

-- A receiver that holds more than there is room for is not read.
dchan_rx_full :
    (p : Port) (fifo : List ℕ)
    → ser_buf_size < p.d_rx_idx + length fifo
    → length fifo ≢ 0
    → g4_dchan_rx p fifo ≡ (p, fifo, length fifo)
unfolding g4_dchan_rx
dchan_rx_full p fifo over some_there =
    let there : (length fifo == 0) ≡ false = ground arith in
    let no_room : leb (p.d_rx_idx + length fifo) ser_buf_size ≡ false = ground arith in
    rw (g4_dchan_rx, there, no_room) refl

Leaves-trans :
    (p p1 : Port)
    → inbox p1 ≡ inbox p
    → p1.d_rx_recv ≡ p.d_rx_recv
    → (o : Option Port) → Leaves p1 o
    → Leaves p o
Leaves-trans p p1 box recv none h = tt
Leaves-trans p p1 box recv (some p2) (box', recv') = (box' ∙ box, recv' ∙ recv)

bind-Leaves :
    (p : Port) (o : Option Port) (f : Port → Option Port)
    → Leaves p o
    → ((p1 : Port) → p1.d_rx_recv ≡ p.d_rx_recv → Leaves p1 (f p1))
    → Leaves p (bind o f)
bind-Leaves p none f h k = tt
bind-Leaves p (some p1) f (box, recv) k = Leaves-trans p p1 box recv (f p1) (k p1 recv)

some_pair :
    (a b : Port) (x y : List ℕ)
    → ◌≡◌ {A = Option (Port × List ℕ)} (some (a, x)) (some (b, y))
    → (a ≡ b) × (x ≡ y)
some_pair a b x y h = (cc, cc)

from_kept :
    (p q : Port) (fifo fifo' : List ℕ) (p1 : Port)
    → (p1 ≡ q) × (fifo ≡ fifo')
    → (inbox p1 ≡ inbox p) × (p1.d_rx_recv ≡ length fifo)
    → (inbox q ≡ inbox p) × (q.d_rx_recv ≡ length fifo) × (fifo' ≡ fifo)
from_kept p q fifo fifo' p1 (same, kept) (box, recv) =
    (ap inbox (sym same) ∙ box, ap (λ r. r.d_rx_recv) (sym same) ∙ recv, sym kept)

-- The port after the frames and the messages: the receiver is not read, and its count says so.
from_ran :
    (p q : Port) (uart : Uart) (fifo : List ℕ) (ran : Option Port)
    → Leaves p ran
    → ser_buf_size < p.d_rx_idx + length uart.fifo
    → length uart.fifo ≢ 0
    → bind {B = Port × List ℕ} ran (λ p1.
      let (p2, fifo, n) = g4_dchan_rx p1 uart.fifo in
      let p3 : Port = record p2 { d_rx_recv = n } in
      some (if length p3.mux.tx == 0 then p3 else (g4_dchan_tx p3 uart.count_reg).0, fifo))
      ≡ some (q, fifo)
    → (inbox q ≡ inbox p) × (q.d_rx_recv ≡ length uart.fifo) × (fifo ≡ uart.fifo)
unfolding g4_dchan_tx
from_ran p q uart fifo none l over there h = cc
from_ran p q uart fifo (some p1) (box, recv) over there h =
    let idx : p1.d_rx_idx ≡ p.d_rx_idx = ap (λ b. b.0) box in
    let full = dchan_rx_full p1 uart.fifo (omega arith) there in
    let h' = rw full at h in
    elim (Bool-cases (length p1.mux.tx == 0)) [
      | inl idle ↦
          let h'' = rw idle at h' in
          from_kept p q uart.fifo fifo _ (some_pair _ q uart.fifo fifo h'') (box, refl)
      | inr waits ↦
          let h'' = rw waits at h' in
          from_kept p q uart.fifo fifo _ (some_pair _ q uart.fifo fifo h'') (box, refl)
    ]

tasklet_full :
    (checknumber : ℕ) (p q : Port) (uart : Uart) (buf fifo : List ℕ) (last : Bool)
    → ser_buf_size < p.d_rx_idx + length uart.fifo
    → length uart.fifo ≢ 0
    → p.d_rx_recv ≢ 0
    → tasklet checknumber p uart buf last ≡ some (q, fifo)
    → (inbox q ≡ inbox p) × (q.d_rx_recv ≡ length uart.fifo) × (fifo ≡ uart.fifo)
unfolding tasklet
tasklet_full checknumber p q uart buf fifo last over there busy h =
    let ran : Option Port =
      if p.running
      then bind (g4_hdlc_tx p buf last uart.count_reg) (g4_hdlc_rx checknumber)
      else some p in
    let l : Leaves p ran =
      if-Leaves p p.running (bind (g4_hdlc_tx p buf last uart.count_reg) (g4_hdlc_rx checknumber))
        (some p)
        (bind-Leaves p (g4_hdlc_tx p buf last uart.count_reg) (g4_hdlc_rx checknumber)
          (hdlc_tx-Leaves p buf last uart.count_reg)
          (λ p1 recv. hdlc_rx_waits checknumber p1 (λ z. busy (sym recv ∙ z))))
        (refl, refl) in
    from_ran p q uart fifo ran l over there h

-- Once the receiver holds more octets than the buffer has room for, and the last look at it has
-- found some, nothing is received any more: over any number of interrupts, none of which writes past
-- the end of a buffer, nothing is handed on to the signalling channel or the terminal, and the
-- receiver still has all its octets, in front of what comes in besides, whatever is sent.
pub run_full :
    {checknumber : ℕ} {p q : Port} {fifo fifo' : List ℕ}
    → Run checknumber p fifo q fifo'
    → p.d_rx_idx ≤ ser_buf_size
    → ser_buf_size < p.d_rx_idx + length fifo
    → p.d_rx_recv ≢ 0
    → (more : List ℕ) × (inbox q ≡ inbox p) × (fifo' ≡ fifo ++ more)
run_full {p} {fifo} stay inside over busy = ([], refl, sym (append-nil fifo))
run_full {checknumber} {p} {q} {fifo} {fifo'} (tick {p1} {fifo1} new buf last count_reg e rest)
      inside over busy =
    let longer = length-append fifo new in
    let (box, recv, kept) =
      tasklet_full checknumber p p1 (record { fifo = fifo ++ new; count_reg = count_reg }) buf fifo1
        last (omega arith) (λ z. absurd (omega arith)) busy e in
    let idx : p1.d_rx_idx ≡ p.d_rx_idx = ap (λ b. b.0) box in
    let len : length fifo1 ≡ length (fifo ++ new) = ap length kept in
    let (more, box', grown) =
      run_full rest (omega arith) (omega arith) (λ z. absurd (omega arith)) in
    (new ++ more, box' ∙ box, grown ∙ ap (λ l. l ++ more) kept ∙ append_assoc fifo new more)
