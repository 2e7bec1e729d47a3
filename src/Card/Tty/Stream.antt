-- ===== src/Card/Tty/Stream.antt =====
-- What is written to a terminal, as the multiplexer carries it.
use chan_extra.Prelude.{
  ℕ, zero, suc, ◌+◌, ◌*◌, ◌/◌, ◌≤◌, ◌<◌, ◌≡◌, refl, sym, ap, ◌∙◌, true, false, none, some, List, [],
  ◌∷◌, ◌++◌, arith, inl, inr, Bool-cases, length, drop, ltb, leb, ◌==◌, if◌then◌else◌, bind,
  length-drop,
}
use chan_extra.Mux.Send.{Mux, ser_buf_size, send}
use chan_extra.Card.Serial.Frames.{
  IsSplit, frames, last-frames, length-frames, length-pieces, pieces, pieces-IsSplit, send_nil,
  step-frames,
}
use chan_extra.Card.Tty.{Reply, Terminal, count, ttygsm_write, write_loop}

pub write_loop-frames :
    (f : ℕ) (m : Mux) (buffer : List ℕ)
    → length buffer ≤ f
    → length m.tx ≤ ser_buf_size
    → write_loop f m buffer ≡ send m (frames 2 (pieces f buffer))
unfolding write_loop
write_loop-frames zero m [] h fits = sym (send_nil m fits)
write_loop-frames zero m (x ∷ xs) h fits = absurd (omega arith)
write_loop-frames (suc f) m [] h fits = sym (send_nil m fits)
write_loop-frames (suc f) m (x ∷ xs) h fits =
    let some_left : (suc (length xs) == 0) ≡ false = ground arith in
    elim (Bool-cases (ltb 127 (suc (length xs)))) [
      | inl long ↦
          rw (write_loop, some_left, long)
            (step-frames 2 f (write_loop f) m x xs
              (λ m' fits'.
                write_loop-frames f m' (drop 127 (x ∷ xs)) (omega (arith, length-drop 127 (x ∷ xs)))
                  fits')
              fits)
      | inr short ↦ rw (write_loop, some_left, short) (last-frames 2 f m x xs (ground arith) fits)
    ]

-- A terminal with these octets in the transmitter's buffer, behind those that waited.
abbrev pub sent : Terminal → List ℕ → Terminal
sent t octets = record t {
  port = record t.port { mux = record t.port.mux { tx = t.port.mux.tx ++ octets } };
}

send-sent :
    (t : Terminal) (octets : List ℕ) (n : ℕ)
    → bind {B = Terminal × Reply}
        (send t.port.mux octets)
        (λ m. some (record t { port = record t.port { mux = m } }, count n))
      ≡ (if leb (length t.port.mux.tx + length octets) ser_buf_size
          then some (sent t octets, count n)
          else none)
unfolding send
send-sent t octets n = elim (Bool-cases (leb (length t.port.mux.tx + length octets) ser_buf_size)) [
  | inl fits ↦ rw (send, fits) refl
  | inr over ↦ rw (send, over) refl
]

-- An open terminal of a running span, with room by the code's count, writes frames.
write-write_loop :
    (t : Terminal) (buffer : List ℕ)
    → t.driver_data ≡ true
    → 0 < t.open_count
    → t.port.running ≡ true
    → t.port.mode ≡ true
    → t.port.enabled ≡ true
    → length t.port.mux.tx + length buffer + 6 < ser_buf_size
    → ttygsm_write t buffer
      ≡ bind {B = Terminal × Reply}
          (write_loop (length buffer) t.port.mux buffer)
          (λ m. some (record t { port = record t.port { mux = m } }, count (length buffer)))
unfolding ttygsm_write
write-write_loop t buffer given opened running mode enabled room =
    let is_open : ltb 0 t.open_count ≡ true = ground arith in
    let has_room : leb ser_buf_size (length t.port.mux.tx + length buffer + 6) ≡ false =
      ground arith in
    simp (given, running, mode, enabled, has_room, is_open)

-- A write that passes the test for room goes out as frames of the second channel, which hold all
-- of it in order, 127 octets in each but the last. They have six octets more each, where the test
-- has six in all: they are sent when they fit, and written past the end of the buffer when not.
-- The terminal is open, its span is running and multiplexed, and what waits is within the buffer.
pub ttygsm_write-frames :
    (t : Terminal) (buffer : List ℕ)
    → t.driver_data ≡ true
    → 0 < t.open_count
    → t.port.running ≡ true
    → t.port.mode ≡ true
    → t.port.enabled ≡ true
    → length t.port.mux.tx + length buffer + 6 < ser_buf_size
    → (cs : List (List ℕ)) × IsSplit buffer cs
      × (length cs ≡ (length buffer + 126) / 127)
      × (ttygsm_write t buffer ≡ (
          if leb (length t.port.mux.tx + (length buffer + 6 * length cs)) ser_buf_size
          then some (sent t (frames 2 cs), count (length buffer))
          else none))
unfolding ttygsm_write
ttygsm_write-frames t buffer given opened running mode enabled room =
    let n = length buffer in
    let split = pieces-IsSplit n buffer (omega arith) in
    let cs = pieces n buffer in
    let loop = write_loop-frames n t.port.mux buffer (omega arith) (omega arith) in
    let len : length (frames 2 cs) ≡ n + 6 * length cs =
      length-frames 2 cs split.sized ∙ ap (λ l. length l + 6 * length cs) split.joined in
    (
      cs,
      split,
      length-pieces n buffer (omega arith),
      write-write_loop t buffer given opened running mode enabled room
          ∙ ap
              (λ w.
                bind {B = Terminal × Reply} w
                  (λ m. some (record t { port = record t.port { mux = m } }, count n)))
              loop
          ∙ send-sent t (frames 2 cs) n
          ∙ ap
              (λ (k : ℕ).
                if leb (length t.port.mux.tx + k) ser_buf_size
                then some (sent t (frames 2 cs), count n)
                else none)
              len,
    )
