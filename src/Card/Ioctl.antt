-- ===== src/Card/Ioctl.antt =====
-- The settings of a span's multiplexer: `g4_ioctl` of src/opvxg4xx/base.c, less the power of the
-- module, and `gsm0710_exit`; `g4_startup` and `g4_shutdown`, without their locks.
use chan_extra.Prelude.{
  ℕ, ◌+◌, Bool, true, false, Option, none, some, List, [], ◌∷◌, ◌++◌, length, replicate, leb,
  if◌then◌else◌, bind,
}
use chan_extra.Mux.Send.{ser_buf_size, at_command, gsm0710_setup_step, gsm0710_write_frame}
use chan_extra.Card.Port.{Port}
use chan_extra.Card.Serial.{g4_dchan_tx}
use chan_extra.Card.Power.{close_mux}

-- The commands, without OPVXG4XX_ before their names.
pub data Command : Type 0 where
  init create_concole create_dahdi create_ext clear_mux : Command
  set_mux : List ℕ → Command
  enable_tty_module disable_tty_module get_mux_stat get_tty_module connect_dahdi : Command

-- What the caller gets: 0 with, for the two that ask, a value, or -1.
pub data Answer : Type 0 where
  done minus_one : Answer
  value : Bool → Answer

-- A step of the set-up, where the multiplexer is enabled.
unfoldable pub setup : Port → ℕ → Option (Port × Answer)
unfolding gsm0710_setup_step
setup p step =
    if p.enabled
    then bind (gsm0710_setup_step p.mux step) (λ m. some (record p { mux = m }, done))
    else some (p, minus_one)

-- The command is copied to 128 octets, with the end of a line behind it: `none` past their end.
unfoldable pub start_mux : Port → List ℕ → ℕ → Option (Port × Answer)
unfolding at_command g4_dchan_tx
start_mux p command count_reg =
    if p.enabled
    then (if leb (length command + 2) 128
        then bind (at_command p.mux (command ++ (13 ∷ 10 ∷ []))) (λ m.
          some (record (g4_dchan_tx (record p { mux = m }) count_reg).0 { mode = true }, done))
        else none)
    else some (p, minus_one)

-- The mode is left also where the multiplexer is not enabled.
unfoldable pub stop_mux : Port → ℕ → Option (Port × Answer)
unfolding gsm0710_write_frame g4_dchan_tx
stop_mux p count_reg =
    let p' : Port = record p { mode = false } in
    if p.enabled
    then bind (gsm0710_write_frame p.mux 0 close_mux 239)
        (λ sent. some ((g4_dchan_tx (record p' { mux = sent.0 }) count_reg).0, done))
    else some (p', minus_one)

unfoldable pub g4_ioctl : Port → Command → ℕ → Option (Port × Answer)
unfolding setup start_mux stop_mux
g4_ioctl p init count_reg = setup p 0
g4_ioctl p create_concole count_reg = setup p 2
g4_ioctl p create_dahdi count_reg = setup p 3
g4_ioctl p create_ext count_reg = setup p 4
g4_ioctl p (set_mux command) count_reg = start_mux p command count_reg
g4_ioctl p clear_mux count_reg = stop_mux p count_reg
g4_ioctl p enable_tty_module count_reg = some (record p { enabled = true }, done)
g4_ioctl p disable_tty_module count_reg = some (record p { enabled = false }, done)
g4_ioctl p get_mux_stat count_reg = some (p, if p.enabled then value p.mode else minus_one)
g4_ioctl p get_tty_module count_reg = some (p, value p.enabled)
g4_ioctl p connect_dahdi count_reg = some (
  record p { mux = record p.mux { tx = [] }; d_rx_buf = replicate ser_buf_size 0; d_rx_idx = 0 },
  done,
)

-- The receiver's buffer is given back, which no one reads afterwards.
unfoldable pub gsm0710_exit : Port → Port
gsm0710_exit p = record p { mode = false; enabled = false }

unfoldable pub g4_startup : Port → Port
g4_startup p = if p.running then p else record p { running = true }

unfoldable pub g4_shutdown : Port → Port
g4_shutdown p = if p.running then record p { running = false } else p
