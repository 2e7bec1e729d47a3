-- ===== src/Mux/Channel.antt =====
-- What the driver does with the frames it receives: `gsm0710_handle_command` and
-- `gsm0710_extract_frames` of src/opvxg4xx/base.c, less what they print. There is memory for every
-- answer.
pub mod Status
pub mod Growth
use chan_extra.Prelude.{
  ℕ, zero, suc, ◌+◌, ◌-◌, ◌*◌, Bool, true, false, not, ◌||◌, Option, none, some, List, [], ◌∷◌,
  ◌++◌, length, take, get_or, get_elem?, set, ltb, leb, ◌==◌, if◌then◌else◌, bit_and, bind, u8,
}
use chan_extra.Mux.Ring.{Buffer, gsm0710_buffer_write, gsm0710_buffer_length}
use chan_extra.Mux.Receive.{Frame, frame_is, gsm0710_buffer_get_frame}
use chan_extra.Mux.Send.{Mux, gsm0710_write_frame, control_frame}

-- GSM0710_COMMAND_IS: the type of a command without the command bit.
unfoldable pub command_is : ℕ → ℕ → Bool
command_is command type = bit_and type 253 == command

-- The length of a command's type: the octets up to the first with the extension bit.
unfoldable pub type_length : List ℕ → ℕ
type_length [] = 1
type_length (b ∷ bs) = if bit_and b 1 == 0 then type_length bs + 1 else 1

-- An answer that the command is not known, with the command's type. A type without an end is read
-- past the end of the data: `none`.
unfoldable pub not_supported : Mux → List ℕ → Option Mux
unfolding type_length gsm0710_write_frame
not_supported m octets =
    let n = type_length octets in
    if ltb (length octets) n
    then none
    else bind (gsm0710_write_frame m 0 (17 ∷ bit_and 1 (bit_and 127 n * 2) ∷ take n octets) 239)
        (λ (m', sent). some m')

-- The length of the command and the signals of a modem status are read to be printed only.
unfoldable pub gsm0710_handle_command : Mux → Frame → Option Mux
unfolding command_is not_supported gsm0710_write_frame
gsm0710_handle_command m f = elim f.octets [
  | [] ↦ some m
  | type ∷ rest ↦
      if bit_and type 2 == 2
      then (if command_is 193 type || (command_is 33 type || command_is 225 type)
          then bind (gsm0710_write_frame m 0 (bit_and type 253 ∷ rest) 239) (λ (m', sent). some m')
          else not_supported m (type ∷ rest))
      else some m
]

-- Data for a channel: the first is the signalling channel's, the others are the terminal's.
unfoldable pub deliver : Mux → Frame → Mux
deliver m f =
    if f.channel == 1
    then record m { hdlc = m.hdlc ++ (f.octets ∷ []) }
    else (if m.tty_open then record m { tty = m.tty ++ (f.octets ∷ []) } else m)

-- `cstatus[channel].opened = opened`.
unfoldable pub set_opened : Mux → ℕ → Bool → Mux
set_opened m channel opened = record m { cstatus = set m.cstatus channel opened }

-- The frames that open and close a channel, on the channel's status.
unfoldable pub handle_ua : Mux → ℕ → Bool → Option Mux
unfolding set_opened control_frame
handle_ua m channel true = control_frame (set_opened m channel false) channel 47
handle_ua m channel false = some (set_opened m channel true)

unfoldable pub handle_dm : Mux → ℕ → Bool → Option Mux
unfolding set_opened
handle_dm m channel true = some (set_opened m channel false)
handle_dm m channel false = some m

unfoldable pub handle_disc : Mux → ℕ → Bool → Option Mux
unfolding set_opened control_frame
handle_disc m channel true =
    bind (control_frame (set_opened m channel false) channel 99) (λ m'. control_frame m' channel 47)
handle_disc m channel false = control_frame m channel 15

unfoldable pub handle_sabm : Mux → ℕ → Option Mux
unfolding set_opened control_frame
handle_sabm m channel = control_frame (set_opened m channel true) channel 99

-- A frame that opens or closes a channel. The status of a channel that the card does not have is
-- looked up past the end of `cstatus`: `none`.
unfoldable pub handle_status : Mux → Frame → Option Mux
unfolding frame_is handle_ua handle_dm handle_disc handle_sabm
handle_status m f =
    if frame_is 99 f.control
    then bind (get_elem? m.cstatus f.channel) (handle_ua m f.channel)
    else if frame_is 15 f.control
    then bind (get_elem? m.cstatus f.channel) (handle_dm m f.channel)
    else if frame_is 67 f.control
    then bind (get_elem? m.cstatus f.channel) (handle_disc m f.channel)
    else if frame_is 47 f.control
    then bind (get_elem? m.cstatus f.channel) (λ _. handle_sabm m f.channel)
    else some m

unfoldable pub handle_frame : Mux → Frame → Option Mux
unfolding frame_is deliver gsm0710_handle_command handle_status
handle_frame m f =
    if frame_is 3 f.control || frame_is 239 f.control
    then (if ltb 0 f.channel then some (deliver m f) else gsm0710_handle_command m f)
    else handle_status m f

-- The loop over the frames in the buffer, with as many rounds as there are octets.
unfoldable pub extract_loop : ℕ → Mux → Option Mux
unfolding gsm0710_buffer_get_frame handle_frame
extract_loop zero m = some m
extract_loop (suc n) m =
    let (b, frame) = gsm0710_buffer_get_frame m.buffer in
    elim frame [
      | none ↦ some (record m { buffer = b })
      | some f ↦ bind (handle_frame (record m { buffer = b }) f) (extract_loop n)
    ]

-- `received` is `d_rx_buf` of the span up to `d_rx_idx`.
unfoldable pub gsm0710_extract_frames : Mux → List ℕ → Option Mux
unfolding gsm0710_buffer_write gsm0710_buffer_length extract_loop
gsm0710_extract_frames m received =
    let (b, n) = gsm0710_buffer_write m.buffer received in
    extract_loop (gsm0710_buffer_length b + 1) (record m { buffer = b })
