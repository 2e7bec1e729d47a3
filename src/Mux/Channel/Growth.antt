-- ===== src/Mux/Channel/Growth.antt =====
-- What the frames that come in make the driver send: it goes behind what waits already.
use chan_extra.Prelude.{
  ℕ, zero, suc, ◌+◌, ◌*◌, ◌≡◌, refl, sym, ap, ◌∙◌, Bool, true, false, ◌||◌, Option, none, some,
  List, [], ◌∷◌, ◌++◌, append_assoc, append-nil, arith, inl, inr, Bool-cases, Option-cases, length,
  take, get_elem?, ltb, leb, ◌==◌, if◌then◌else◌, bind, bit_and, bit_or,
}
use chan_extra.Mux.Send.{Mux, send, gsm0710_write_frame, control_frame, frame_octets}
use chan_extra.Mux.Receive.{Frame, frame_is, gsm0710_buffer_get_frame}
use chan_extra.Mux.Ring.{gsm0710_buffer_length, gsm0710_buffer_write}
use chan_extra.Mux.Channel.{
  deliver, extract_loop, gsm0710_extract_frames, gsm0710_handle_command, handle_disc, handle_dm,
  handle_frame, handle_sabm, handle_status, handle_ua, not_supported, command_is, set_opened,
  type_length,
}

-- What waits to be sent has only grown at its end.
abbrev pub Grows : List ℕ → Option Mux → Type 0
Grows tx none = Unit
Grows tx (some m) = (more : List ℕ) × (m.tx ≡ tx ++ more)

pub same-Grows : (m : Mux) → Grows m.tx (some m)
same-Grows m = ([], sym (append-nil m.tx))

pub Grows-trans :
    (tx : List ℕ) (m : Mux) (more : List ℕ)
    → m.tx ≡ tx ++ more
    → (o : Option Mux) → Grows m.tx o
    → Grows tx o
Grows-trans tx m more e none h = tt
Grows-trans tx m more e (some m') (more', e') =
    (more ++ more', e' ∙ ap (λ l. l ++ more') e ∙ append_assoc tx more more')

pub bind-Grows :
    (tx : List ℕ) (o : Option Mux) (f : Mux → Option Mux)
    → Grows tx o
    → ((m : Mux) → Grows m.tx (f m))
    → Grows tx (bind o f)
bind-Grows tx none f h k = tt
bind-Grows tx (some m) f (more, e) k = Grows-trans tx m more e (f m) (k m)

pub send-Grows : (m : Mux) (octets : List ℕ) → Grows m.tx (send m octets)
unfolding send
send-Grows m octets = elim (Bool-cases (leb (length m.tx + length octets) 4096)) [
  | inl fits ↦ rw (send, fits) (octets, refl)
  | inr over ↦ rw (send, over) tt
]

pub write_frame-Grows :
    (m : Mux) (channel : ℕ) (input : List ℕ) (type : ℕ)
    → Grows m.tx (bind (gsm0710_write_frame m channel input type) (λ sent. some sent.0))
unfolding gsm0710_write_frame
write_frame-Grows m channel input type =
    let g = send-Grows m (frame_octets channel type input) in
    elim (Option-cases (send m (frame_octets channel type input))) [
      | inl full ↦ rw full tt
      | inr (m', sent) ↦ let g' = rw sent at g in rw sent g'
    ]

control_frame-Grows : (m : Mux) (channel type : ℕ) → Grows m.tx (control_frame m channel type)
unfolding control_frame
control_frame-Grows m channel type = write_frame-Grows m channel [] (bit_or type 16)

if-Grows :
    (tx : List ℕ) (c : Bool) (a b : Option Mux)
    → Grows tx a
    → Grows tx b
    → Grows tx (if c then a else b)
if-Grows tx true a b h k = h
if-Grows tx false a b h k = k

status-Grows :
    (m : Mux) (i : ℕ) (f : Bool → Option Mux)
    → ((opened : Bool) → Grows m.tx (f opened))
    → Grows m.tx (bind (get_elem? m.cstatus i) f)
status-Grows m i f k = elim (Option-cases (get_elem? m.cstatus i)) [
  | inl outside ↦ rw outside tt
  | inr (opened, e) ↦ rw e (k opened)
]

handle_ua-Grows : (m : Mux) (channel : ℕ) (opened : Bool) → Grows m.tx (handle_ua m channel opened)
unfolding handle_ua set_opened
handle_ua-Grows m channel true = control_frame-Grows _ channel 47
handle_ua-Grows m channel false = same-Grows m

handle_dm-Grows : (m : Mux) (channel : ℕ) (opened : Bool) → Grows m.tx (handle_dm m channel opened)
unfolding handle_dm set_opened
handle_dm-Grows m channel true = same-Grows m
handle_dm-Grows m channel false = same-Grows m

handle_disc-Grows :
    (m : Mux) (channel : ℕ) (opened : Bool) → Grows m.tx (handle_disc m channel opened)
unfolding handle_disc set_opened
handle_disc-Grows m channel true =
    let closed = set_opened m channel false in
    bind-Grows m.tx (control_frame closed channel 99) (λ m'. control_frame m' channel 47)
      (control_frame-Grows closed channel 99) (λ m'. control_frame-Grows m' channel 47)
handle_disc-Grows m channel false = control_frame-Grows m channel 15

handle_sabm-Grows : (m : Mux) (channel : ℕ) → Grows m.tx (handle_sabm m channel)
unfolding handle_sabm set_opened
handle_sabm-Grows m channel = control_frame-Grows (set_opened m channel true) channel 99

handle_status-Grows : (m : Mux) (f : Frame) → Grows m.tx (handle_status m f)
unfolding handle_status
handle_status-Grows m f =
    let i = f.channel in
    let ua = status-Grows m i (handle_ua m i) (handle_ua-Grows m i) in
    let dm = status-Grows m i (handle_dm m i) (handle_dm-Grows m i) in
    let disc = status-Grows m i (handle_disc m i) (handle_disc-Grows m i) in
    let sabm = status-Grows m i (λ _. handle_sabm m i) (λ _. handle_sabm-Grows m i) in
    let o_disc = bind (get_elem? m.cstatus i) (handle_disc m i) in
    let last =
      if frame_is 47 f.control
      then bind (get_elem? m.cstatus i) (λ _. handle_sabm m i)
      else some m in
    let from_disc = if frame_is 67 f.control then o_disc else last in
    let o_dm = bind (get_elem? m.cstatus i) (handle_dm m i) in
    let from_dm = if frame_is 15 f.control then o_dm else from_disc in
    let last-Grows =
      if-Grows m.tx (frame_is 47 f.control) (bind (get_elem? m.cstatus i) (λ _. handle_sabm m i))
        (some m) sabm (same-Grows m) in
    let from_disc-Grows = if-Grows m.tx (frame_is 67 f.control) o_disc last disc last-Grows in
    let from_dm-Grows = if-Grows m.tx (frame_is 15 f.control) o_dm from_disc dm from_disc-Grows in
    if-Grows m.tx (frame_is 99 f.control) (bind (get_elem? m.cstatus i) (handle_ua m i)) from_dm ua
      from_dm-Grows

not_supported-Grows : (m : Mux) (octets : List ℕ) → Grows m.tx (not_supported m octets)
unfolding not_supported
not_supported-Grows m octets = elim (Bool-cases (ltb (length octets) (type_length octets))) [
  | inl cut ↦ rw (not_supported, cut) tt
  | inr whole ↦
      rw (not_supported, whole)
        (write_frame-Grows m 0
          (17 ∷ bit_and 1 (bit_and 127 (type_length octets) * 2) ∷ take (type_length octets) octets)
          239)
]

command_octets :
    (m : Mux) (f : Frame) (octets : List ℕ)
    → f.octets ≡ octets
    → Grows m.tx (gsm0710_handle_command m f)
unfolding gsm0710_handle_command
command_octets m f [] e = rw (gsm0710_handle_command, e) (same-Grows m)
command_octets m f (type ∷ rest) e =
    rw (gsm0710_handle_command, e)
      (if-Grows m.tx (bit_and type 2 == 2)
        (if command_is 193 type || (command_is 33 type || command_is 225 type)
          then bind (gsm0710_write_frame m 0 (bit_and type 253 ∷ rest) 239) (λ sent. some sent.0)
          else not_supported m (type ∷ rest))
        (some m)
        (if-Grows m.tx (command_is 193 type || (command_is 33 type || command_is 225 type))
          (bind (gsm0710_write_frame m 0 (bit_and type 253 ∷ rest) 239) (λ sent. some sent.0))
          (not_supported m (type ∷ rest)) (write_frame-Grows m 0 (bit_and type 253 ∷ rest) 239)
          (not_supported-Grows m (type ∷ rest)))
        (same-Grows m))

deliver-tx : (m : Mux) (f : Frame) → (deliver m f).tx ≡ m.tx
unfolding deliver
deliver-tx m f = ground arith

handle_frame-Grows : (m : Mux) (f : Frame) → Grows m.tx (handle_frame m f)
unfolding handle_frame
handle_frame-Grows m f =
    if-Grows m.tx (frame_is 3 f.control || frame_is 239 f.control)
      (if ltb 0 f.channel then some (deliver m f) else gsm0710_handle_command m f)
      (handle_status m f)
      (if-Grows m.tx (ltb 0 f.channel) (some (deliver m f)) (gsm0710_handle_command m f)
        ([], deliver-tx m f ∙ sym (append-nil m.tx)) (command_octets m f f.octets refl))
      (handle_status-Grows m f)

extract_loop-Grows : (n : ℕ) (m : Mux) → Grows m.tx (extract_loop n m)
unfolding extract_loop
extract_loop-Grows zero m = same-Grows m
extract_loop-Grows (suc n) m =
    let b = (gsm0710_buffer_get_frame m.buffer).0 in
    elim (Option-cases (gsm0710_buffer_get_frame m.buffer).1) [
      | inl none_left ↦ rw (extract_loop, none_left) (same-Grows m)
      | inr (f, e) ↦
          rw (extract_loop, e)
            (bind-Grows m.tx (handle_frame (record m { buffer = b }) f) (extract_loop n)
              (handle_frame-Grows (record m { buffer = b }) f) (extract_loop-Grows n))
    ]

pub extract_frames-Grows :
    (m : Mux) (octets : List ℕ) → Grows m.tx (gsm0710_extract_frames m octets)
unfolding gsm0710_extract_frames
extract_frames-Grows m octets =
    let b = (gsm0710_buffer_write m.buffer octets).0 in
    extract_loop-Grows (gsm0710_buffer_length b + 1) (record m { buffer = b })
