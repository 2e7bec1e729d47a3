-- ===== src/Mux/Receive/Roundtrip.antt =====
-- What the driver sends as a frame it receives as that frame.
use chan_extra.Prelude.{
  ℕ, suc, ◌+◌, ◌%◌, ◌≤◌, ◌<◌, ◌≡◌, refl, sym, ap, drop, ◌∙◌, inl, inr, false, some, List, [], ◌∷◌,
  ◌++◌, arith, ltb, ◌==◌, length, Bool-cases, append_assoc, take_all, length-append, min,
}
use chan_extra.Mux.Fcs.{gsm0710_make_fcs}
use chan_extra.Mux.Ring.{Buffer, gsm0710_buffer_length}
use chan_extra.Mux.Ring.View.{view, IsBuffer, Holds, held_head}
use chan_extra.Mux.Receive.{
  Frame, Attempt, f_flag, frame_is, read_header, read_frame, attempt, get_frame,
  gsm0710_buffer_get_frame,
}
use chan_extra.Mux.Send.{address, header, frame_octets}
use chan_extra.Mux.Send.Octets.{address-channel}
use chan_extra.Mux.Receive.Start.{started, buffer_length-Holds, find_start}
use chan_extra.Mux.Receive.Parts.{read_header_lem, IsReceived, end_of, read_frame_lem}

frame_octets-end_of :
    (channel type : ℕ) (input rest : List ℕ)
    → length input ≤ 512
    → frame_octets channel type input ++ rest
      ≡ f_flag
        ∷ (header channel type (length input) ++ (input ++ end_of channel type (length input) rest))
unfolding frame_octets
frame_octets-end_of channel type input rest hn =
    let count : min 512 (length input) ≡ length input = omega arith in
    let fcs = gsm0710_make_fcs (header channel type (length input)) in
    rw
      (
        count,
        take_all (length input) input (omega arith),
        append_assoc (header channel type (length input)) (input ++ (fcs ∷ f_flag ∷ [])) rest,
        append_assoc input (fcs ∷ f_flag ∷ []) rest,
      )
      refl

header-address :
    (channel type n : ℕ) → header channel type n ≡ address channel ∷ drop 1 (header channel type n)
unfolding header
header-address channel type n = elim (Bool-cases (ltb 127 n)) [
  | inl long ↦ rw long refl
  | inr short ↦ rw short refl
]

length-header_ge : (channel type n : ℕ) → 3 ≤ length (header channel type n)
unfolding header
length-header_ge channel type n = elim (Bool-cases (ltb 127 n)) [
  | inl long ↦ rw long (omega arith)
  | inr short ↦ rw short (omega arith)
]

attempt-read_frame :
    (b : Buffer) (a : ℕ) (xs : List ℕ)
    → IsBuffer b
    → (a == f_flag) ≡ false
    → Holds b b.readp (f_flag ∷ a ∷ xs)
    → 4 ≤ length xs
    → (read_header (started b)).needed ≤ suc (length xs)
    → attempt b ≡ read_frame (started b) (read_header (started b))
unfolding attempt
attempt-read_frame b a xs wf ha h hl hn =
    let (found, skipped) = find_start b a xs wf ha h in
    let rest = (held_head b b.readp f_flag (a ∷ xs) wf h).1 in
    let wf' : IsBuffer (started b) = record {
      size = wf.size;
      readp_inside = rest.inside;
      writep_inside = wf.writep_inside;
    } in
    let len : gsm0710_buffer_length (started b) ≡ suc (length xs) =
      buffer_length-Holds (started b) (a ∷ xs) wf'
        (record { inside = rest.inside; held = rest.held }) in
    let five : ltb (suc (length xs)) 5 ≡ false = ground arith in
    let enough : ltb (suc (length xs)) (read_header (started b)).needed ≡ false = ground arith in
    rw (found, skipped, len, five, enough) refl

get_frame-whole :
    (fuel : ℕ) (b b' : Buffer) (f : Frame)
    → attempt b ≡ Attempt.whole f b'
    → get_frame (fuel + 1) b ≡ (b', some f)
unfolding get_frame
get_frame-whole fuel b b' f h =
    let one_more : fuel + 1 ≡ suc fuel = omega arith in rw (one_more, get_frame, h) refl

-- A buffer that holds a frame as the driver sends one, of a type other than UI and with 512 octets
-- of data at most, and then any other octets, gives the frame: with the type and the data that it
-- was sent with, and with the lower six bits of its channel. The other octets are left, the frame
-- is counted and none is dropped.
pub get_frame-frame_octets :
    (b : Buffer) (channel type : ℕ) (input rest : List ℕ)
    → IsBuffer b
    → channel < 256
    → type < 256
    → frame_is 3 type ≡ false
    → length input ≤ 512
    → view b.octets b.readp b.writep ≡ frame_octets channel type input ++ rest
    → let (b', frame) = gsm0710_buffer_get_frame b in
      (frame ≡ some (record { channel = channel % 64; control = type; octets = input }))
      × IsReceived b rest b'
unfolding gsm0710_buffer_get_frame
get_frame-frame_octets b channel type input rest wf hc ht not_ui hn h =
    let n = length input in
    let head = header channel type n in
    let ys = input ++ end_of channel type n rest in
    let (ac, ab, not_flag) = address-channel channel hc in
    let xs = drop 1 head ++ ys in
    let starts : head ++ ys ≡ address channel ∷ xs =
      ap (λ l. l ++ ys) (header-address channel type n) in
    let at : Holds b b.readp (f_flag ∷ address channel ∷ xs) = record {
      inside = wf.readp_inside;
      held = h ∙ frame_octets-end_of channel type input rest hn ∙ ap (λ l. f_flag ∷ l) starts;
    } in
    let after = (held_head b b.readp f_flag (address channel ∷ xs) wf at).1 in
    let wf' : IsBuffer (started b) = record {
      size = wf.size;
      readp_inside = after.inside;
      writep_inside = wf.writep_inside;
    } in
    let is =
      read_header_lem (started b) channel type n ys wf' hc hn
        (record { inside = after.inside; held = after.held ∙ sym starts }) in
    let lh = length-header_ge channel type n in
    let l1 : length head + length ys ≡ suc (length xs) =
      sym (length-append head ys) ∙ ap length starts in
    let l2 : length ys ≡ n + suc (suc (length rest)) =
      length-append input (end_of channel type n rest) in
    let looked =
      attempt-read_frame b (address channel) xs wf not_flag at (omega arith)
        (rw is.same_needed (omega arith)) in
    let (b', whole, received) =
      read_frame_lem (started b) channel type input rest (read_header (started b)) wf' hc ht not_ui
        hn is in
    rw (get_frame-whole (gsm0710_buffer_length b) b b' _ (looked ∙ whole)) (
      refl,
      record {
        is_buffer = received.is_buffer;
        left = received.left;
        counted = received.counted;
        none_dropped = received.none_dropped;
      },
    )
