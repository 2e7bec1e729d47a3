-- ===== src/Card/Tests.antt =====
-- A span of a card: a short run, a terminal that is written to, and its codec.
use chan_extra.Prelude.{
  negsuc, ℕ, ◌+◌, ◌*◌, ◌/◌, ◌≡◌, refl, true, false, none, some, List, [], ◌∷◌, ◌++◌, arith, length,
  leb, if◌then◌else◌, replicate,
}
use chan_extra.Mux.Ring.{new_buffer}
use chan_extra.Mux.Ring.View.{view, IsBuffer}
use chan_extra.Mux.Send.{Mux, ser_buf_size}
use chan_extra.Mux.Channel.{gsm0710_extract_frames}
use chan_extra.Card.Port.{Port}
use chan_extra.Card.Serial.{tasklet}
use chan_extra.Card.Serial.Frames.{IsSplit, frames, join}
use chan_extra.Card.Serial.Order.{Run, stay, tick, run-outgoing}
use chan_extra.Card.Serial.Overflow.{inbox, run_full}
use chan_extra.Card.Tty.{
  Terminal, count, enodev, eperm, ttygsm_close, ttygsm_open, ttygsm_write, ttygsm_write_room,
}
use chan_extra.Card.Tty.Stream.{sent, ttygsm_write-frames}
use chan_extra.Card.Tty.Delivery.{extract_frames-ttygsm_write}
use chan_extra.Card.Tty.Stuck.{TtyRun, TtyStep, run_stuck}
use chan_extra.Card.Power.{pio0_setbit}
use chan_extra.Card.Codec.{format_sidetone}

-- A span that runs with its multiplexer: what has left on its line and what waits to, the receiver's
-- buffer, how much of it is in use, and what the last look at the receiver has found.
abbrev span : List ℕ → List ℕ → List ℕ → ℕ → ℕ → Port
span line waiting buf idx recv = record {
  mux = record {
    cstatus = true ∷ true ∷ true ∷ false ∷ [];
    tx = waiting;
    buffer = new_buffer;
    hdlc = [];
    tty = [];
    tty_open = true;
  };
  enabled = true;
  mode = true;
  running = true;
  power = true;
  power_on_flag = true;
  check_start = false;
  d_rx_buf = buf;
  d_rx_idx = idx;
  d_rx_recv = recv;
  hdlc_pending = 0;
  sigactive = false;
  intcount = 7;
  check_number = 0;
  line = line;
}

abbrev empty_buf : List ℕ
empty_buf = replicate {A = ℕ} 4096 0

-- An interrupt in which four octets leave and two come in.
abbrev one_interrupt :
    Run 5000
      (span (b'A' ∷ []) (b'T' ∷ 13 ∷ 10 ∷ []) (0 ∷ 0 ∷ 0 ∷ []) 0 0)
      []
      (span (b'A' ∷ b'T' ∷ 13 ∷ 10 ∷ []) [] (b'O' ∷ b'K' ∷ 0 ∷ []) 2 2)
      []
unfolding tasklet
one_interrupt = tick (b'O' ∷ b'K' ∷ []) [] false 0 refl stay

run-outgoing_example :
    (more : List ℕ) × ((b'A' ∷ b'T' ∷ 13 ∷ 10 ∷ []) ++ []
      ≡ ((b'A' ∷ []) ++ (b'T' ∷ 13 ∷ 10 ∷ [])) ++ more)
run-outgoing_example = run-outgoing one_interrupt

-- A receiver with two octets where there is room for one, and then with three.
abbrev full_interrupt :
    Run 5000
      (span [] [] empty_buf 4095 1)
      (1 ∷ 2 ∷ [])
      (span [] [] empty_buf 4095 3)
      (1 ∷ 2 ∷ 3 ∷ [])
unfolding tasklet
full_interrupt = tick (3 ∷ []) [] false 0 refl stay

run_full_example :
    (more : List ℕ) × (inbox (span [] [] empty_buf 4095 3) ≡ inbox (span [] [] empty_buf 4095 1))
    × (1 ∷ 2 ∷ 3 ∷ [] ≡ (1 ∷ 2 ∷ []) ++ more)
run_full_example = run_full full_interrupt (omega arith) (omega arith) (λ z. absurd (omega arith))

abbrev terminal : Terminal
terminal = record { port = span [] [] empty_buf 0 0; driver_data = true; open_count = 1 }

abbrev greeting : List ℕ
greeting = b'A' ∷ b'T' ∷ 13 ∷ []

ttygsm_write-frames_example :
    (cs : List (List ℕ)) × IsSplit greeting cs
    × (length cs ≡ (3 + 126) / 127)
    × (ttygsm_write terminal greeting ≡ (
        if leb (0 + (3 + 6 * length cs)) ser_buf_size
        then some (sent terminal (frames 2 cs), count 3)
        else none))
ttygsm_write-frames_example =
    ttygsm_write-frames terminal greeting refl (omega arith) refl refl refl (omega arith)

new_buffer-IsBuffer : IsBuffer new_buffer
unfolding new_buffer
new_buffer-IsBuffer = record {
  size = refl;
  readp_inside = omega arith;
  writep_inside = omega arith;
}

new_buffer-view : view new_buffer.octets new_buffer.readp new_buffer.writep ≡ []
unfolding new_buffer view
new_buffer-view = refl

extract_frames-ttygsm_write_example :
    (t' : Terminal) × (m' : Mux) × (cs : List (List ℕ)) × (ttygsm_write terminal greeting
      ≡ some (t', count 3))
    × (gsm0710_extract_frames terminal.port.mux t'.port.mux.tx ≡ some m')
    × (m'.tty ≡ [] ++ cs)
    × (join cs ≡ greeting)
extract_frames-ttygsm_write_example =
    extract_frames-ttygsm_write terminal greeting terminal.port.mux refl (omega arith) refl refl
      refl refl (omega arith) new_buffer-IsBuffer new_buffer-view refl

-- It is opened a second time, and then written to and closed.
abbrev lost_terminal : Terminal
lost_terminal = record terminal { driver_data = false }

abbrev second_opening : TtyRun (ttygsm_open terminal).0 lost_terminal
unfolding ttygsm_open ttygsm_close ttygsm_write
second_opening =
    TtyRun.step (TtyStep.wrote greeting enodev refl) (TtyRun.step (TtyStep.closed) TtyRun.stay)

run_stuck_example :
    ((ttygsm_open lost_terminal).1 ≡ eperm)
    × (ttygsm_write lost_terminal greeting ≡ some (lost_terminal, enodev))
    × (ttygsm_close lost_terminal ≡ lost_terminal)
    × (lost_terminal.open_count ≡ terminal.open_count)
run_stuck_example = run_stuck terminal lost_terminal greeting (omega arith) second_opening

gains : format_sidetone (negsuc 5) ≡ 1
unfolding format_sidetone
gains = refl

room : ttygsm_write_room lost_terminal ≡ enodev
unfolding ttygsm_write_room
room = refl

set_and_cleared :
    (pio0_setbit (pio0_setbit (record { io = 5; written = [] }) 3 true) 2 false).io ≡ 9
unfolding pio0_setbit
set_and_cleared = refl
