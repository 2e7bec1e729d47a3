-- ===== src/Card/Tty.antt =====
-- The terminal of a span: `ttygsm_open`, `do_close`, `ttygsm_close`, `ttygsm_write` and
-- `ttygsm_write_room` of src/opvxg4xx/base.c. The terminal's number is one of the card's.
pub mod Stream
pub mod Delivery
pub mod Stuck
use chan_extra.Prelude.{
  ℕ, zero, suc, ◌+◌, ◌-◌, Bool, true, false, not, ◌&&◌, ◌||◌, Option, none, some, List, length,
  take, drop, ltb, leb, ◌==◌, if◌then◌else◌, bind,
}
use chan_extra.Mux.Send.{Mux, ser_buf_size, gsm0710_write_frame}
use chan_extra.Card.Port.{Port}

-- `driver_data` tells whether that pointer of the `tty_struct` is set: the structure is one for all
-- that open the terminal. The field `tty` of the driver's own structure is `tty_open` of the mux.
pub record Terminal : Type 0 where
  pub port : Port
  pub driver_data : Bool
  pub open_count : ℕ

-- What a function returns: a number of octets, 0 for done, or an error.
pub data Reply : Type 0 where
  eperm enodev enospc einval : Reply
  count : ℕ → Reply

unfoldable pub set_tty : Port → Bool → Port
set_tty p opened = record p { mux = record p.mux { tty_open = opened } }

-- The test of `gsm0710_mode` is one of an array's address, and says nothing.
unfoldable pub ttygsm_open : Terminal → Terminal × Reply
unfolding set_tty
ttygsm_open t =
    let t' : Terminal = record t { driver_data = false } in
    if not t.port.enabled
    then (t', eperm)
    else if not t.port.running
    then (t', eperm)
    else if ltb 0 t.open_count
    then (t', eperm)
    else (
      record t' { port = set_tty t.port true; driver_data = true; open_count = t.open_count + 1 },
      count 0,
    )

unfoldable pub do_close : Terminal → Terminal
unfolding set_tty
do_close t =
    if ltb 0 t.open_count
    then record t { port = set_tty t.port false; open_count = t.open_count - 1 }
    else t

unfoldable pub ttygsm_close : Terminal → Terminal
unfolding do_close
ttygsm_close t = if t.driver_data then do_close t else t

-- The loop over what is written, with as many rounds as octets.
unfoldable pub write_loop : ℕ → Mux → List ℕ → Option Mux
unfolding gsm0710_write_frame
write_loop zero m rest = some m
write_loop (suc f) m rest = elim (length rest == 0) [
  | true ↦ some m
  | false ↦ elim (ltb 127 (length rest)) [
    | true ↦
        bind (gsm0710_write_frame m 2 (take 127 rest) 239)
          (λ sent. write_loop f sent.0 (drop 127 rest))
    | false ↦ bind (gsm0710_write_frame m 2 rest 239) (λ sent. some sent.0)
  ]
]

-- Whether there is no room for the octets, by the code's count of it.
unfoldable pub is_full : Port → ℕ → Bool
is_full p n =
    if p.mode && p.enabled
    then leb ser_buf_size (length p.mux.tx + n + 6)
    else leb ser_buf_size (length p.mux.tx + n)

-- `none` is a write past the end of the buffer.
unfoldable pub ttygsm_write : Terminal → List ℕ → Option (Terminal × Reply)
unfolding is_full write_loop
ttygsm_write t buffer =
    let p = t.port in
    let n = length buffer in
    if not t.driver_data
    then some (t, enodev)
    else if not p.running
    then some (t, eperm)
    else if is_full p n
    then some (t, enospc)
    else if not (ltb 0 t.open_count)
    then some (t, einval)
    else if p.mode || p.enabled
    then bind (write_loop n p.mux buffer)
        (λ m. some (record t { port = record p { mux = m } }, count n))
    else some (t, enodev)

unfoldable pub ttygsm_write_room : Terminal → Reply
ttygsm_write_room t =
    if not t.driver_data then enodev else (if ltb 0 t.open_count then count 255 else einval)
