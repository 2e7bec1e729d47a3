-- ===== src/Card/Serial.antt =====
-- The serial line of a span: `g4_dchan_rx`, `g4_dchan_tx`, `g4_hdlc_rx`, `g4_hdlc_tx` and what
-- `g4_run` and `irq_tasklet_handler` do for the span, of src/opvxg4xx/base.c.
pub mod Frames
pub mod Order
pub mod Overflow
use chan_extra.Prelude.{
  ℕ, zero, suc, ◌+◌, ◌-◌, ◌^◌, ◌%◌, Bool, true, false, not, ◌&&◌, ◌||◌, Option, none, some, List,
  [], ◌∷◌, ◌++◌, length, take, drop, get_or, map, ltb, leb, ◌==◌, if◌then◌else◌, bit_and, bind, min,
  u8,
}
use chan_extra.Mux.Ring.{splice}
use chan_extra.Mux.Send.{Mux, ser_buf_size, send, gsm0710_write_frame}
use chan_extra.Mux.Channel.{gsm0710_extract_frames}
use chan_extra.Card.Port.{Port, Uart, received}

-- The port, what the receiver still holds, and the count that the function returns. When there is
-- no room for all octets none is read.
unfoldable pub g4_dchan_rx : Port → List ℕ → Port × List ℕ × ℕ
unfolding splice
g4_dchan_rx p fifo =
    let n = length fifo in
    if n == 0
    then (p, [], 0)
    else if leb (p.d_rx_idx + n) ser_buf_size
    then (
      if p.running
          then record p {
            d_rx_buf = splice p.d_rx_buf p.d_rx_idx (map u8 fifo);
            d_rx_idx = p.d_rx_idx + n;
          }
          else p,
      [],
      n,
    )
    else (p, fifo, n)

-- The transmitter takes 1024 octets less those of the count's lower five bits.
unfoldable pub g4_dchan_tx : Port → ℕ → Port × ℕ
g4_dchan_tx p count_reg =
    let left = 1024 - bit_and count_reg 31 in
    let count = min (length p.mux.tx) left in
    (
      record p {
        line = p.line ++ take count p.mux.tx;
        mux = record p.mux { tx = drop count p.mux.tx };
      },
      count,
    )

-- Whether the module is heard for the first time: an `AT` or an `OK`.
unfoldable pub is_awake : Port → Bool
is_awake p =
    let a = get_or p.d_rx_buf 0 0 in
    let b = get_or p.d_rx_buf 1 0 in (a == b'A' && b == b'T') || (a == b'O' && b == b'K')

unfoldable pub wake : Port → Port
unfolding is_awake
wake p =
    if not p.power_on_flag && is_awake p then record p { power_on_flag = true; power = true } else p

-- What has come in is handed on, as frames or to the signalling channel.
unfoldable pub hand_on : Port → Option Port
unfolding gsm0710_extract_frames
hand_on p =
    if p.enabled && p.mode
    then bind (gsm0710_extract_frames p.mux (received p))
        (λ mux. some (record p { mux = mux; d_rx_idx = 0 }))
    else some
        (record p { mux = record p.mux { hdlc = p.mux.hdlc ++ (received p ∷ []) }; d_rx_idx = 0 })

-- `checknumber` is a parameter of the driver. The interrupts since the check began are counted in
-- 32 bits.
unfoldable pub g4_hdlc_rx : ℕ → Port → Option Port
unfolding wake hand_on
g4_hdlc_rx checknumber p =
    if not (p.d_rx_idx == 0) && p.d_rx_recv == 0
    then hand_on (wake p)
    else some (
        if not p.power_on_flag
          && (not (p.check_number == 0)
              && ltb checknumber ((p.intcount + 2 ^ 32 - p.check_number) % 2 ^ 32))
        then record p { check_number = 0 }
        else p)

-- The loop of `g4_hdlc_tx` over what it sends on channel 1, with as many rounds as octets.
unfoldable pub hdlc_loop : ℕ → Mux → List ℕ → Option Mux
unfolding gsm0710_write_frame
hdlc_loop zero m rest = some m
hdlc_loop (suc f) m rest = elim (length rest == 0) [
  | true ↦ some m
  | false ↦ elim (ltb (length rest) 127) [
    | true ↦ bind (gsm0710_write_frame m 1 rest 239) (λ sent. some sent.0)
    | false ↦
        bind (gsm0710_write_frame m 1 (take 127 rest) 239)
          (λ sent. hdlc_loop f sent.0 (drop 127 rest))
  ]
]

-- `AT`, to see whether the module answers.
unfoldable pub send_check : Port → Option Port
unfolding gsm0710_write_frame send
send_check p =
    let at : List ℕ = b'A' ∷ b'T' ∷ 13 ∷ 10 ∷ [] in
    let p' : Port = record p { check_start = false; check_number = p.intcount } in
    if p.enabled
    then bind (gsm0710_write_frame p.mux 0 at 239) (λ sent. some (record p' { mux = sent.0 }))
    else bind (send p.mux at) (λ m. some (record p' { mux = m }))

-- What is to be sent, as frames or as it is.
unfoldable pub send_buf : Port → List ℕ → Option Port
unfolding hdlc_loop send
send_buf p buf =
    if p.enabled
    then bind (hdlc_loop (length buf) p.mux buf) (λ m. some (record p { mux = m }))
    else bind (send p.mux buf) (λ m. some (record p { mux = m }))

-- `buf` and `last` are what `dahdi_hdlc_getbuf` gives: the octets, and whether a message ends with
-- them.
unfoldable pub g4_hdlc_tx : Port → List ℕ → Bool → ℕ → Option Port
unfolding send_check send_buf g4_dchan_tx
g4_hdlc_tx p buf last count_reg =
    if p.check_start && not p.power_on_flag
    then send_check p
    else if p.hdlc_pending == 0 || length buf == 0
    then some p
    else bind (send_buf (record p { sigactive = true }) buf) (λ p1. some (
        if last
        then record (g4_dchan_tx p1 count_reg).0 {
          sigactive = false;
          hdlc_pending = p1.hdlc_pending - 1;
        }
        else p1))

-- One interrupt, for the span: `buf` and `last` are for its transmission. The audio is left out.
unfoldable pub tasklet : ℕ → Port → Uart → List ℕ → Bool → Option (Port × List ℕ)
unfolding g4_hdlc_tx g4_hdlc_rx g4_dchan_rx g4_dchan_tx
tasklet checknumber p uart buf last =
    let ran : Option Port =
      if p.running
      then bind (g4_hdlc_tx p buf last uart.count_reg) (g4_hdlc_rx checknumber)
      else some p in
    bind ran (λ p1.
      let (p2, fifo, n) = g4_dchan_rx p1 uart.fifo in
      let p3 : Port = record p2 { d_rx_recv = n } in
      some (if length p3.mux.tx == 0 then p3 else (g4_dchan_tx p3 uart.count_reg).0, fifo))
