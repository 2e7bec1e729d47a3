-- ===== src/Card/Port.antt =====
-- What `struct g4_card` of src/opvxg4xx/opvxg4xx.h keeps of one span, and what stands for the
-- hardware: the octets that wait in the receiver of the serial line and the count of its
-- transmitter.
use chan_extra.Prelude.{ℕ, Bool, List, take}
use chan_extra.Mux.Send.{Mux}

-- `mux` holds `d_tx_buf` up to `d_tx_idx` and what belongs to the multiplexer. `d_rx_buf` is an
-- array of 4096 octets of which `d_rx_idx` are in use. `enabled` and `mode` are `enable_gsm0710` and
-- `gsm0710_mode`, `running` the flag DAHDI_FLAG_RUNNING of the span. `intcount` and `check_number`
-- (`power_on_check_number`) are the card's. `line` is what has been written to the transmitter.
pub record Port : Type 0 where
  pub mux : Mux
  pub enabled : Bool
  pub mode : Bool
  pub running : Bool
  pub power : Bool
  pub power_on_flag : Bool
  pub check_start : Bool
  pub d_rx_buf : List ℕ
  pub d_rx_idx : ℕ
  pub d_rx_recv : ℕ
  pub hdlc_pending : ℕ
  pub sigactive : Bool
  pub intcount : ℕ
  pub check_number : ℕ
  pub line : List ℕ

-- The octets that the receiver holds, and the register that counts those that the transmitter has
-- still to send.
pub record Uart : Type 0 where
  pub fifo : List ℕ
  pub count_reg : ℕ

-- What has come in, up to `d_rx_idx`.
abbrev pub received : Port → List ℕ
received p = take p.d_rx_idx p.d_rx_buf
