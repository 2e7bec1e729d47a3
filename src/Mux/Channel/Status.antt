-- ===== src/Mux/Channel/Status.antt =====
-- The status of the channels, as the frames that open and close them change it.
use chan_extra.Prelude.{
  ℕ, zero, suc, ◌+◌, ◌≤◌, ◌≡◌, refl, sym, ap, inl, inr, Bool, true, false, not, Option, some, List,
  [], ◌∷◌, ◌++◌, arith, length, get_elem?, set, bind, bit_or, ◌⊎◌, append_assoc, append-nil,
  length-append, leb,
}
use chan_extra.Mux.Receive.{Frame, frame_is}
use chan_extra.Mux.Send.{Mux, ser_buf_size, frame_octets, send, control_frame, gsm0710_write_frame}
use chan_extra.Mux.Channel.{
  handle_ua, handle_dm, handle_disc, handle_sabm, handle_status, set_opened,
}

-- The frames that open and close channels.
pub data Request : Type 0 where
  ua : Request
  dm : Request
  disc : Request
  sabm : Request

-- The type of the frame, without the poll bit.
unfoldable pub type_of : Request → ℕ
type_of ua = 99
type_of dm = 15
type_of disc = 67
type_of sabm = 47

-- Whether the channel is open after the frame, from whether it was before.
unfoldable pub opened_after : Request → Bool → Bool
opened_after ua opened = not opened
opened_after dm opened = false
opened_after disc opened = false
opened_after sabm opened = true

-- The types of the frames in answer.
unfoldable pub answers : Request → Bool → List ℕ
answers ua true = 47 ∷ []
answers ua false = []
answers dm opened = []
answers disc true = 99 ∷ 47 ∷ []
answers disc false = 15 ∷ []
answers sabm opened = 99 ∷ []

-- The octets of the answers, each with the poll bit and without data.
unfoldable pub answer_octets : ℕ → List ℕ → List ℕ
answer_octets channel [] = []
answer_octets channel (type ∷ types) =
    frame_octets channel (bit_or type 16) [] ++ answer_octets channel types

send_fits :
    (m : Mux) (octets : List ℕ)
    → length m.tx + length octets ≤ ser_buf_size
    → send m octets ≡ some (record m { tx = m.tx ++ octets })
unfolding send
send_fits m octets h =
    let fits : leb (length m.tx + length octets) 4096 ≡ true = ground arith in rw fits refl

control_frame_fits :
    (m : Mux) (channel type : ℕ)
    → length m.tx + length (frame_octets channel (bit_or type 16) []) ≤ ser_buf_size
    → control_frame m channel type
      ≡ some (record m { tx = m.tx ++ frame_octets channel (bit_or type 16) [] })
unfolding control_frame gsm0710_write_frame
control_frame_fits m channel type h =
    rw (send_fits m (frame_octets channel (bit_or type 16) []) h) refl

set-get_elem? : (xs : List Bool) (i : ℕ) (x : Bool) → get_elem? xs i ≡ some x → set xs i x ≡ xs
set-get_elem? [] i x h = refl
set-get_elem? (y ∷ xs) zero x h = ap (λ z. z ∷ xs) (ground (arith, h))
set-get_elem? (y ∷ xs) (suc i) x h = ap (λ l. y ∷ l) (set-get_elem? xs i x h)

-- The state after the frame.
abbrev pub answered : Request → Mux → ℕ → Bool → Mux
answered r m channel opened = record m {
  cstatus = set m.cstatus channel (opened_after r opened);
  tx = m.tx ++ answer_octets channel (answers r opened);
}

abbrev Fits : Request → Mux → ℕ → Bool → Type 0
Fits r m channel opened =
    length m.tx + length (answer_octets channel (answers r opened)) ≤ ser_buf_size

-- One answer.
one_answer :
    (m : Mux) (channel type : ℕ)
    → length m.tx + length (answer_octets channel (type ∷ [])) ≤ ser_buf_size
    → control_frame m channel type
      ≡ some (record m { tx = m.tx ++ answer_octets channel (type ∷ []) })
unfolding answer_octets
one_answer m channel type fits =
    let octets = frame_octets channel (bit_or type 16) [] in
    let e : octets ++ [] ≡ octets = append-nil octets in
    rw e (control_frame_fits m channel type (rw e at fits))

two_answers :
    (m : Mux) (channel type type' : ℕ)
    → length m.tx + length (answer_octets channel (type ∷ type' ∷ [])) ≤ ser_buf_size
    → bind (control_frame m channel type) (λ m'. control_frame m' channel type')
      ≡ some (record m { tx = m.tx ++ answer_octets channel (type ∷ type' ∷ []) })
unfolding answer_octets
two_answers m channel type type' fits =
    let a = frame_octets channel (bit_or type 16) [] in
    let b = frame_octets channel (bit_or type' 16) [] in
    let e : b ++ [] ≡ b = append-nil b in
    let fits' : length m.tx + length (a ++ b) ≤ ser_buf_size = rw e at fits in
    let l = length-append a b in
    let l' = length-append m.tx a in
    let m' : Mux = record m { tx = m.tx ++ a } in
    rw
      (
        e,
        control_frame_fits m channel type (omega arith),
        control_frame_fits m' channel type' (omega arith),
        append_assoc m.tx a b,
      )
      refl

nothing_set :
    (m : Mux) (channel : ℕ) (opened : Bool)
    → get_elem? m.cstatus channel ≡ some opened
    → m ≡ record m { cstatus = set m.cstatus channel opened; tx = m.tx ++ [] }
nothing_set m channel opened h = rw (set-get_elem? m.cstatus channel opened h, append-nil m.tx) refl

handler : Request → Mux → ℕ → Bool → Option Mux
handler ua m channel opened = handle_ua m channel opened
handler dm m channel opened = handle_dm m channel opened
handler disc m channel opened = handle_disc m channel opened
handler sabm m channel opened = handle_sabm m channel

handler_lem :
    (r : Request) (m : Mux) (channel : ℕ) (opened : Bool)
    → get_elem? m.cstatus channel ≡ some opened
    → Fits r m channel opened
    → handler r m channel opened ≡ some (answered r m channel opened)
unfolding handler handle_ua handle_dm handle_disc handle_sabm set_opened answers opened_after
    answer_octets
handler_lem ua m channel true h fits =
    one_answer (record m { cstatus = set m.cstatus channel false }) channel 47 fits
handler_lem ua m channel false h fits =
    ap (λ t. some (record m { cstatus = set m.cstatus channel true; tx = t }))
      (sym (append-nil m.tx))
handler_lem dm m channel true h fits =
    ap (λ t. some (record m { cstatus = set m.cstatus channel false; tx = t }))
      (sym (append-nil m.tx))
handler_lem dm m channel false h fits = ap some (nothing_set m channel false h)
handler_lem disc m channel true h fits =
    two_answers (record m { cstatus = set m.cstatus channel false }) channel 99 47 fits
handler_lem disc m channel false h fits =
    rw (set-get_elem? m.cstatus channel false h) (one_answer m channel 15 fits)
handler_lem sabm m channel opened h fits =
    one_answer (record m { cstatus = set m.cstatus channel true }) channel 99 fits

-- A frame that opens or closes a channel of the card, with the poll bit or without, sets the status
-- of the channel to what `opened_after` says and sends the frames that `answers` says, and nothing
-- else of the state changes, if the answers fit into the transmit buffer.
pub handle_status_lem :
    (r : Request) (m : Mux) (f : Frame) (opened : Bool)
    → get_elem? m.cstatus f.channel ≡ some opened
    → (f.control ≡ type_of r) ⊎ (f.control ≡ type_of r + 16)
    → Fits r m f.channel opened
    → handle_status m f ≡ some (answered r m f.channel opened)
unfolding handle_status frame_is type_of handler
handle_status_lem ua m f opened h (inl e) fits =
    rw (e, h) (handler_lem ua m f.channel opened h fits)
handle_status_lem ua m f opened h (inr e) fits =
    rw (e, h) (handler_lem ua m f.channel opened h fits)
handle_status_lem dm m f opened h (inl e) fits =
    rw (e, h) (handler_lem dm m f.channel opened h fits)
handle_status_lem dm m f opened h (inr e) fits =
    rw (e, h) (handler_lem dm m f.channel opened h fits)
handle_status_lem disc m f opened h (inl e) fits =
    rw (e, h) (handler_lem disc m f.channel opened h fits)
handle_status_lem disc m f opened h (inr e) fits =
    rw (e, h) (handler_lem disc m f.channel opened h fits)
handle_status_lem sabm m f opened h (inl e) fits =
    rw (e, h) (handler_lem sabm m f.channel opened h fits)
handle_status_lem sabm m f opened h (inr e) fits =
    rw (e, h) (handler_lem sabm m f.channel opened h fits)
