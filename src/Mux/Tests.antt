-- ===== src/Mux/Tests.antt =====
-- The multiplexer on a short frame.
use chan_extra.Prelude.{
  ℕ, ◌≡◌, ◌↔◌, refl, inr, true, false, some, List, [], ◌∷◌, ◌++◌, arith, get_or, replicate,
}
use chan_extra.Mux.Fcs.{gsm0710_crctable, fcs_step, fcs_loop, gsm0710_make_fcs}
use chan_extra.Mux.Fcs.Laws.{divide, crctable-divide, check_iff}
use chan_extra.Mux.Ring.{
  Buffer, new_buffer, gsm0710_buffer_write, gsm0710_buffer_length, gsm0710_buffer_free,
}
use chan_extra.Mux.Ring.View.{view, IsBuffer}
use chan_extra.Mux.Ring.Write.{IsWritten, buffer_write-IsWritten, buffer_write_full}
use chan_extra.Mux.Receive.{Frame, frame_is, get_frame, gsm0710_buffer_get_frame}
use chan_extra.Mux.Receive.Parts.{IsReceived}
use chan_extra.Mux.Receive.Fuel.{get_frame_enough}
use chan_extra.Mux.Receive.Roundtrip.{get_frame-frame_octets}
use chan_extra.Mux.Send.{Mux, frame_octets, header}
use chan_extra.Mux.Channel.{handle_status}
use chan_extra.Mux.Channel.Status.{
  Request, type_of, answered, answers, answer_octets, handle_status_lem,
}

-- A buffer whose data wrap around: `xs` begin two octets before the end.
abbrev wrapped : ℕ → ℕ → List ℕ → Buffer
wrapped a b xs = record {
  octets = xs ++ (replicate {A = ℕ} 2037 0 ++ (a ∷ b ∷ []));
  readp = 2046;
  writep = 9;
  flag_found = false;
  received_count = 0;
  dropped_count = 0;
}

crctable-divide_example : get_or gsm0710_crctable 0x53 0 ≡ divide 8 0x53
crctable-divide_example = crctable-divide 0x53 (omega arith)

check_iff_example :
    (fcs_step (fcs_loop 0xff (3 ∷ 0x3f ∷ 1 ∷ [])) 0x1c ≡ 0xcf)
    ↔ (0x1c ≡ gsm0710_make_fcs (3 ∷ 0x3f ∷ 1 ∷ []))
check_iff_example = check_iff (3 ∷ 0x3f ∷ 1 ∷ []) 0x1c (ground arith) (omega arith)

new_buffer-IsBuffer : IsBuffer new_buffer
unfolding new_buffer
new_buffer-IsBuffer = record {
  size = refl;
  readp_inside = omega arith;
  writep_inside = omega arith;
}

buffer_write-IsWritten_example :
    IsWritten new_buffer
      (1 ∷ 2 ∷ 3 ∷ [])
      (gsm0710_buffer_write new_buffer (1 ∷ 2 ∷ 3 ∷ [])).0
      (gsm0710_buffer_write new_buffer (1 ∷ 2 ∷ 3 ∷ [])).1
unfolding new_buffer gsm0710_buffer_free
buffer_write-IsWritten_example =
    buffer_write-IsWritten new_buffer (1 ∷ 2 ∷ 3 ∷ []) new_buffer-IsBuffer (omega arith)

buffer_write_full_example :
    gsm0710_buffer_length (gsm0710_buffer_write new_buffer (replicate {A = ℕ} 2048 1)).0 ≡ 0
unfolding new_buffer gsm0710_buffer_free
buffer_write_full_example =
    buffer_write_full new_buffer (replicate {A = ℕ} 2048 1) new_buffer-IsBuffer (omega arith)

-- A frame of three octets for channel 1, which wraps around, and an octet after it.
abbrev octets : List ℕ
octets = frame_octets 1 239 (65 ∷ 84 ∷ 13 ∷ [])

abbrev received : Buffer
received =
    wrapped 0xf9 7
      (239 ∷ 7 ∷ 65 ∷ 84 ∷ 13 ∷ gsm0710_make_fcs (7 ∷ 239 ∷ 7 ∷ []) ∷ 0xf9 ∷ 0xf9 ∷ 8 ∷ [])

get_frame-frame_octets_example :
    ((gsm0710_buffer_get_frame received).1
      ≡ some (record { channel = 1; control = 239; octets = 65 ∷ 84 ∷ 13 ∷ [] }))
    × IsReceived received (0xf9 ∷ 8 ∷ []) (gsm0710_buffer_get_frame received).0
unfolding frame_octets view frame_is
get_frame-frame_octets_example =
    get_frame-frame_octets received 1 239 (65 ∷ 84 ∷ 13 ∷ []) (0xf9 ∷ 8 ∷ [])
      (record { size = refl; readp_inside = omega arith; writep_inside = omega arith })
      (omega arith) (omega arith) refl (omega arith) refl

abbrev card : Mux
card = record {
  cstatus = true ∷ false ∷ false ∷ false ∷ [];
  tx = 1 ∷ [];
  buffer = new_buffer;
  hdlc = [];
  tty = [];
  tty_open = false;
}

abbrev disc_frame : Frame
disc_frame = record { channel = 0; control = 83; octets = [] }

handle_status_lem_example : handle_status card disc_frame ≡ some (answered Request.disc card 0 true)
unfolding answer_octets answers frame_octets header type_of
handle_status_lem_example =
    handle_status_lem Request.disc card disc_frame true refl (inr refl) (omega arith)

get_frame_enough_example : get_frame 40 received ≡ gsm0710_buffer_get_frame received
unfolding gsm0710_buffer_length
get_frame_enough_example =
    get_frame_enough 40 received
      (record { size = refl; readp_inside = omega arith; writep_inside = omega arith })
      (omega arith)
