-- ===== src/Mux/Receive.antt =====
-- The frames in the receiver's buffer: `gsm0710_frame_t` of src/opvxg4xx/opvxg4xx.h and
-- `gsm0710_buffer_get_frame` of src/opvxg4xx/base.c. There is memory for every frame.
pub mod Data
pub mod Start
pub mod Parts
pub mod Roundtrip
pub mod Fuel
use chan_extra.Prelude.{
  ℕ, zero, suc, ◌+◌, ◌-◌, ◌*◌, ◌/◌, ◌%◌, Bool, true, false, not, ◌&&◌, ◌||◌, Option, none, some,
  List, [], ◌∷◌, ◌++◌, length, take, drop, get_or, ltb, leb, ◌==◌, if◌then◌else◌, bit_and,
}
use chan_extra.Mux.Fcs.{fcs_step, fcs_loop}
use chan_extra.Mux.Ring.{Buffer, buffer_size, inc, gsm0710_buffer_length}

pub record Frame : Type 0 where
  pub channel : ℕ
  pub control : ℕ
  pub octets : List ℕ

-- GSM0710_F_FLAG.
abbrev pub f_flag : ℕ
f_flag = 0xf9

-- GSM0710_FRAME_IS: the type without the poll bit.
unfoldable pub frame_is : ℕ → ℕ → Bool
frame_is type control = bit_and control 239 == type

-- The search for the start flag, with as many rounds as there are octets.
unfoldable pub find_flag : ℕ → Buffer → Buffer
unfolding gsm0710_buffer_length inc
find_flag zero b = b
find_flag (suc n) b =
    if not b.flag_found && ltb 0 (gsm0710_buffer_length b)
    then find_flag n (record b {
      flag_found = (get_or b.octets b.readp 0 == f_flag) || b.flag_found;
      readp = inc b.readp;
    })
    else b

-- The empty frames, likewise.
unfoldable pub skip_flags : ℕ → Buffer → Buffer
unfolding gsm0710_buffer_length inc
skip_flags zero b = b
skip_flags (suc n) b =
    if ltb 0 (gsm0710_buffer_length b) && (get_or b.octets b.readp 0 == f_flag)
    then skip_flags n (record b { readp = inc b.readp })
    else b

-- The channel, the type and the length, the check over them, where they end, and how many octets
-- the whole frame has after its start flag.
pub record Header : Type 0 where
  pub channel : ℕ
  pub control : ℕ
  pub data_length : ℕ
  pub fcs : ℕ
  pub next : ℕ
  pub needed : ℕ

unfoldable pub read_header : Buffer → Header
unfolding fcs_step inc
read_header b =
    let address = get_or b.octets b.readp 0 in
    let p1 = inc b.readp in
    let control = get_or b.octets p1 0 in
    let p2 = inc p1 in
    let len = get_or b.octets p2 0 in
    let fcs = fcs_step (fcs_step (fcs_step 0xff address) control) len in
    let p3 = inc p2 in
    let more = get_or b.octets p3 0 in
    if bit_and len 1 == 0
    then record {
      channel = bit_and address 252 / 4;
      control = control;
      data_length = bit_and len 254 / 2 + more * 128;
      fcs = fcs_step fcs more;
      next = inc p3;
      needed = 6 + (bit_and len 254 / 2 + more * 128);
    }
    else record {
      channel = bit_and address 252 / 4;
      control = control;
      data_length = bit_and len 254 / 2;
      fcs = fcs;
      next = p3;
      needed = 5 + bit_and len 254 / 2;
    }

-- The data of a frame from `p` on, in two pieces where they wrap around.
unfoldable pub read_data : Buffer → ℕ → ℕ → List ℕ
read_data b p n =
    let end = buffer_size - p in
    if ltb end n then drop p b.octets ++ take (n - end) b.octets else take n (drop p b.octets)

-- Where the data end.
unfoldable pub after_data : ℕ → ℕ → ℕ
after_data p n =
    let end = buffer_size - p in
    if ltb end n then n - end else (if p + n == buffer_size then 0 else p + n)

-- What one look at the buffer comes to: no whole frame yet, a frame that is dropped before the
-- function calls itself, or a frame.
pub data Attempt : Type 0 where
  missing : Buffer → Attempt
  dropped : Buffer → Attempt
  whole : Frame → Buffer → Attempt

-- A frame is dropped at `p`.
unfoldable pub drop_frame : Buffer → ℕ → Buffer
drop_frame b p = record b { flag_found = false; dropped_count = b.dropped_count + 1; readp = p }

-- The data and the end of a frame that is there in full.
unfoldable pub read_frame : Buffer → Header → Attempt
unfolding read_data after_data fcs_step fcs_loop drop_frame inc frame_is
read_frame b h =
    let octets = read_data b h.next h.data_length in
    let p = after_data h.next h.data_length in
    let fcs = if frame_is 3 h.control then fcs_loop h.fcs octets else h.fcs in
    if not (fcs_step fcs (get_or b.octets p 0) == 0xcf)
    then Attempt.dropped (drop_frame b p)
    else (if not (get_or b.octets (inc p) 0 == f_flag)
        then Attempt.dropped (drop_frame b (inc p))
        else Attempt.whole (record { channel = h.channel; control = h.control; octets = octets })
            (record b { received_count = b.received_count + 1; readp = inc (inc p) }))

unfoldable pub attempt : Buffer → Attempt
unfolding find_flag skip_flags read_header read_frame gsm0710_buffer_length
attempt b =
    let b1 = find_flag (gsm0710_buffer_length b) b in
    if not b1.flag_found
    then Attempt.missing b1
    else (let b2 = skip_flags (gsm0710_buffer_length b1) b1 in
        if ltb (gsm0710_buffer_length b2) 5
        then Attempt.missing b2
        else (let h = read_header b2 in
            if ltb (gsm0710_buffer_length b2) h.needed
            then Attempt.missing b2
            else read_frame b2 h))

-- The function with `fuel` calls of itself.
unfoldable pub get_frame : ℕ → Buffer → Buffer × Option Frame
unfolding attempt
get_frame zero b = (b, none)
get_frame (suc fuel) b = elim (attempt b) [
  | missing b' ↦ (b', none)
  | dropped b' ↦ get_frame fuel b'
  | whole f b' ↦ (b', some f)
]

-- A dropped frame is of five octets or more, so that there are not more calls than octets.
unfoldable pub gsm0710_buffer_get_frame : Buffer → Buffer × Option Frame
unfolding get_frame
gsm0710_buffer_get_frame b = get_frame (gsm0710_buffer_length b + 1) b
