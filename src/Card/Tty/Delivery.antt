-- ===== src/Card/Tty/Delivery.antt =====
-- Frames of the second channel, at the end that receives them.
use chan_extra.Prelude.{
  ℕ, zero, suc, ◌+◌, ◌*◌, ◌/◌, ◌%◌, ◌≤◌, ◌<◌, ◌≡◌, refl, sym, ap, ◌∙◌, true, Option, none, some,
  List, [], ◌∷◌, ◌++◌, append_assoc, append-nil, arith, inl, inr, Bool-cases, length, leb, bind,
  All,
}
use chan_extra.Mux.Ring.{Buffer, gsm0710_buffer_free, gsm0710_buffer_length, gsm0710_buffer_write}
use chan_extra.Mux.Ring.View.{IsBuffer, length-view, view}
use chan_extra.Mux.Ring.Write.{buffer_write-IsWritten}
use chan_extra.Mux.Receive.{
  Attempt, attempt, find_flag, get_frame, gsm0710_buffer_get_frame, skip_flags,
}
use chan_extra.Mux.Receive.Roundtrip.{get_frame-frame_octets}
use chan_extra.Mux.Send.{Mux, ser_buf_size}
use chan_extra.Mux.Channel.{extract_loop, gsm0710_extract_frames, handle_frame}
use chan_extra.Card.Serial.Frames.{frames, join, length-frames}
use chan_extra.Card.Tty.{Terminal, count, ttygsm_write}
use chan_extra.Card.Tty.Stream.{sent, ttygsm_write-frames}

attempt_empty : (b : Buffer) → gsm0710_buffer_length b ≡ 0 → attempt b ≡ Attempt.missing b
unfolding attempt find_flag skip_flags
attempt_empty b none_left = elim (Bool-cases b.flag_found) [
  | inl found ↦ simp (none_left, found)
  | inr lost ↦ simp (none_left, lost)
]

-- No frame is found in a buffer without octets.
get_frame_empty :
    (b : Buffer)
    → IsBuffer b
    → view b.octets b.readp b.writep ≡ []
    → (gsm0710_buffer_get_frame b).1 ≡ none
unfolding gsm0710_buffer_get_frame get_frame
get_frame_empty b wf empty =
    let none_left : gsm0710_buffer_length b ≡ 0 = sym (length-view b wf) ∙ ap length empty in
    rw (gsm0710_buffer_get_frame, none_left, get_frame, attempt_empty b none_left) refl

handle_frame-tty :
    (m : Mux) (c : List ℕ)
    → m.tty_open ≡ true
    → handle_frame m (record { channel = 2 % 64; control = 239; octets = c })
      ≡ some (record m { tty = m.tty ++ (c ∷ []) })
unfolding handle_frame
handle_frame-tty m c opened = simp opened

-- The frames of the second channel are given to the terminal, in order and whole; the buffer is
-- empty after them.
pub extract_loop-frames :
    (cs : List (List ℕ)) (n : ℕ) (m : Mux)
    → All (λ c. (0 < length c) × (length c ≤ 127)) cs
    → IsBuffer m.buffer
    → view m.buffer.octets m.buffer.readp m.buffer.writep ≡ frames 2 cs
    → m.tty_open ≡ true
    → length cs < n
    → (m' : Mux) × (extract_loop n m ≡ some m')
      × (m'.tty ≡ m.tty ++ cs)
      × (m'.hdlc ≡ m.hdlc)
      × (m'.tx ≡ m.tx)
unfolding extract_loop
extract_loop-frames [] zero m sized wf held opened enough = absurd (omega arith)
extract_loop-frames [] (suc n) m sized wf held opened enough =
    let e = get_frame_empty m.buffer wf held in
    (
      record m { buffer = (gsm0710_buffer_get_frame m.buffer).0 },
      rw (extract_loop, e) refl,
      sym (append-nil m.tty),
      refl,
      refl,
    )
extract_loop-frames (c ∷ cs) zero m sized wf held opened enough = absurd (omega arith)
extract_loop-frames (c ∷ cs) (suc n) m sized wf held opened enough =
    let (found, received) =
      get_frame-frame_octets m.buffer 2 239 c (frames 2 cs) wf (omega arith) (omega arith) refl
        (omega arith) held in
    let b' = (gsm0710_buffer_get_frame m.buffer).0 in
    let given = handle_frame-tty (record m { buffer = b' }) c opened in
    let (m', rest, tty, hdlc, tx) =
      extract_loop-frames cs n (record m { buffer = b'; tty = m.tty ++ (c ∷ []) }) sized.1
        received.is_buffer received.left opened (omega arith) in
    (
      m',
      rw (extract_loop, found) (ap (λ (o : Option Mux). bind o (extract_loop n)) given ∙ rest),
      tty ∙ append_assoc m.tty (c ∷ []) cs,
      hdlc,
      tx,
    )

free_empty :
    (b : Buffer) → IsBuffer b → view b.octets b.readp b.writep ≡ [] → gsm0710_buffer_free b ≡ 2048
unfolding gsm0710_buffer_free gsm0710_buffer_length
free_empty b wf empty =
    let none_left : gsm0710_buffer_length b ≡ 0 = sym (length-view b wf) ∙ ap length empty in
    let r = wf.readp_inside in ground arith

-- What comes in as frames of the second channel, in a buffer that is empty and has the room, is
-- given to the terminal.
pub extract_frames-frames :
    (cs : List (List ℕ)) (m : Mux)
    → All (λ c. (0 < length c) × (length c ≤ 127)) cs
    → IsBuffer m.buffer
    → view m.buffer.octets m.buffer.readp m.buffer.writep ≡ []
    → m.tty_open ≡ true
    → length (frames 2 cs) < 2048
    → (m' : Mux) × (gsm0710_extract_frames m (frames 2 cs) ≡ some m')
      × (m'.tty ≡ m.tty ++ cs)
      × (m'.hdlc ≡ m.hdlc)
      × (m'.tx ≡ m.tx)
unfolding gsm0710_extract_frames
extract_frames-frames cs m sized wf empty opened room =
    let written =
      buffer_write-IsWritten m.buffer (frames 2 cs) wf (rw (free_empty m.buffer wf empty) room) in
    let b = (gsm0710_buffer_write m.buffer (frames 2 cs)).0 in
    let held : view b.octets b.readp b.writep ≡ frames 2 cs =
      rw written.same_readp (written.joined ∙ ap (λ l. l ++ frames 2 cs) empty) in
    let octets : gsm0710_buffer_length b ≡ length (join cs) + 6 * length cs =
      sym (length-view b written.is_buffer) ∙ ap length held ∙ length-frames 2 cs sized in
    extract_loop-frames cs (gsm0710_buffer_length b + 1) (record m { buffer = b }) sized
      written.is_buffer held opened (omega (arith, octets))

-- What is written to a terminal comes out of the terminal at the other end of the line, whole and in
-- order, when the line is given what the transmitter's buffer then holds: between a terminal that
-- is open on a running and multiplexed span with nothing left to send, and a multiplexer with an
-- empty buffer and an open terminal, for a text that fits the receiver's buffer in its frames.
pub extract_frames-ttygsm_write :
    (t : Terminal) (buffer : List ℕ) (m : Mux)
    → t.driver_data ≡ true
    → 0 < t.open_count
    → t.port.running ≡ true
    → t.port.mode ≡ true
    → t.port.enabled ≡ true
    → t.port.mux.tx ≡ []
    → length buffer + 6 * ((length buffer + 126) / 127) < 2048
    → IsBuffer m.buffer
    → view m.buffer.octets m.buffer.readp m.buffer.writep ≡ []
    → m.tty_open ≡ true
    → (t' : Terminal) × (m' : Mux) × (cs : List (List ℕ)) × (ttygsm_write t buffer
        ≡ some (t', count (length buffer)))
      × (gsm0710_extract_frames m t'.port.mux.tx ≡ some m')
      × (m'.tty ≡ m.tty ++ cs)
      × (join cs ≡ buffer)
extract_frames-ttygsm_write t buffer m given opened running mode enabled idle room wf empty there =
    let waits : length t.port.mux.tx ≡ 0 = ap length idle in
    let (cs, split, pieces, wrote) =
      ttygsm_write-frames t buffer given opened running mode enabled (omega arith) in
    let fits : leb (length t.port.mux.tx + (length buffer + 6 * length cs)) ser_buf_size ≡ true =
      ground arith in
    let len : length (frames 2 cs) ≡ length buffer + 6 * length cs =
      length-frames 2 cs split.sized ∙ ap (λ l. length l + 6 * length cs) split.joined in
    let (m', read, tty, _, _) =
      extract_frames-frames cs m split.sized wf empty there (omega arith) in
    (
      sent t (frames 2 cs),
      m',
      cs,
      (let w = rw fits at wrote in w),
      ap (λ l. gsm0710_extract_frames m (l ++ frames 2 cs)) idle ∙ read,
      tty,
      split.joined,
    )
