-- ===== src/Mux/Send.antt =====
-- The frames that the driver sends: `gsm0710_write_frame`, `at_command` and `gsm0710_setup_step` of
-- src/opvxg4xx/base.c. There is memory for every frame.
pub mod Octets
use chan_extra.Prelude.{
  ℕ, zero, suc, ◌+◌, ◌-◌, ◌*◌, ◌/◌, ◌%◌, ◌^◌, Bool, true, false, Option, none, some, List, [], ◌∷◌,
  ◌++◌, length, take, ltb, leb, if◌then◌else◌, bit_and, bit_or, ◌==◌, bind, min, u8,
}
use chan_extra.Mux.Fcs.{gsm0710_make_fcs}
use chan_extra.Mux.Ring.{Buffer}
use chan_extra.Mux.Receive.{f_flag}

-- What the functions use of a card for one of its spans. `cstatus` holds `opened` of the card's
-- channels, and is the same for all spans; `tx` is `d_tx_buf` of the span up to `d_tx_idx`; `hdlc`
-- and `tty` hold what was given to the signalling channel and to the terminal.
pub record Mux : Type 0 where
  pub cstatus : List Bool
  pub tx : List ℕ
  pub buffer : Buffer
  pub hdlc : List (List ℕ)
  pub tty : List (List ℕ)
  pub tty_open : Bool

-- G4_SPANS.
abbrev pub spans : ℕ
spans = 4

-- G4_SER_BUF_SIZE.
abbrev pub ser_buf_size : ℕ
ser_buf_size = 4096

-- `prefix[1]`.
unfoldable pub address : ℕ → ℕ
address channel = bit_or (bit_or 1 2) (bit_and 63 (u8 channel) * 4)

-- `prefix + 1`, of 3 or 4 octets.
unfoldable pub header : ℕ → ℕ → ℕ → List ℕ
unfolding address
header channel type count =
    if ltb 127 count
    then address channel ∷ type ∷ u8 (bit_and 127 count * 2) ∷ bit_and 32640 count / 2 ^ 7 ∷ []
    else address channel ∷ type ∷ bit_or 1 (u8 (count * 2)) ∷ []

-- `send_buffer`.
unfoldable pub frame_octets : ℕ → ℕ → List ℕ → List ℕ
unfolding header
frame_octets channel type input =
    let count = min 512 (length input) in
    let prefix = header channel type count in
    f_flag ∷ (prefix ++ (take count input ++ (gsm0710_make_fcs prefix ∷ f_flag ∷ [])))

-- `memcpy` to the end of `d_tx_buf`: `none` past its end, which the code does not look for.
unfoldable pub send : Mux → List ℕ → Option Mux
send m octets =
    if leb (length m.tx + length octets) ser_buf_size
    then some (record m { tx = m.tx ++ octets })
    else none

-- `input` is of `count` octets, [] for NULL.
unfoldable pub gsm0710_write_frame : Mux → ℕ → List ℕ → ℕ → Option (Mux × ℕ)
unfolding frame_octets send
gsm0710_write_frame m channel input type =
    bind (send m (frame_octets channel type input)) (λ m'. some (m', min 512 (length input)))

-- A frame without data, with the poll bit.
unfoldable pub control_frame : Mux → ℕ → ℕ → Option Mux
unfolding gsm0710_write_frame
control_frame m channel type =
    bind (gsm0710_write_frame m channel [] (bit_or type 16)) (λ (m', n). some m')

unfoldable pub at_command : Mux → List ℕ → Option Mux
unfolding send
at_command m command = send m command

-- `"AT\r\n"`, `"AT+CMUX=0\r\n"` and `"ATE0\r\n"`, the last with its NUL.
unfoldable pub gsm0710_setup_step : Mux → ℕ → Option Mux
unfolding at_command control_frame gsm0710_write_frame
gsm0710_setup_step m step =
    if step == 0
    then at_command m (65 ∷ 84 ∷ 13 ∷ 10 ∷ [])
    else if step == 1
    then at_command m (65 ∷ 84 ∷ 43 ∷ 67 ∷ 77 ∷ 85 ∷ 88 ∷ 61 ∷ 48 ∷ 13 ∷ 10 ∷ [])
    else if step == 2
    then control_frame m 0 47
    else if step == 3
    then control_frame m 1 47
    else if step == 4
    then control_frame m 2 47
    else if step == 5
    then bind (gsm0710_write_frame m 1 (65 ∷ 84 ∷ 69 ∷ 48 ∷ 13 ∷ 10 ∷ 0 ∷ []) 239)
        (λ (m', n). some m')
    else some m
