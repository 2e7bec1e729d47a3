-- ===== src/Mux/Ring.antt =====
-- The receiver's buffer: `gsm0710_buffer_t` with its macros in src/opvxg4xx/opvxg4xx.h, and
-- `gsm0710_buffer_write` and the set-up of `gsm0710_init` in src/opvxg4xx/base.c.
pub mod View
pub mod Splice
pub mod Write
use chan_extra.Prelude.{
  ℕ, ◌+◌, ◌-◌, Bool, true, false, List, [], ◌++◌, length, take, drop, replicate, get_or, ltb, leb,
  ◌==◌, if◌then◌else◌, min,
}

-- GSM0710_BUFFER_SIZE.
abbrev pub buffer_size : ℕ
buffer_size = 2048

-- The pointers are indexes of `octets`, the field `data`; `endp` is `buffer_size`.
pub record Buffer : Type 0 where
  pub octets : List ℕ
  pub readp : ℕ
  pub writep : ℕ
  pub flag_found : Bool
  pub received_count : ℕ
  pub dropped_count : ℕ

-- GSM0710_INC_BUF_POINTER.
unfoldable pub inc : ℕ → ℕ
inc p = if p + 1 == buffer_size then 0 else p + 1

unfoldable pub gsm0710_buffer_length : Buffer → ℕ
gsm0710_buffer_length b =
    if ltb b.writep b.readp then buffer_size - (b.readp - b.writep) else b.writep - b.readp

unfoldable pub gsm0710_buffer_free : Buffer → ℕ
gsm0710_buffer_free b =
    if ltb b.writep b.readp then b.readp - b.writep else buffer_size - (b.writep - b.readp)

-- `memcpy` into `octets` from `at` on.
unfoldable pub splice : List ℕ → ℕ → List ℕ → List ℕ
splice octets at input = take at octets ++ (input ++ drop (at + length input) octets)

-- The buffer and the number of octets that were written.
unfoldable pub gsm0710_buffer_write : Buffer → List ℕ → Buffer × ℕ
unfolding gsm0710_buffer_free splice
gsm0710_buffer_write b input =
    let c = buffer_size - b.writep in
    let count = min (length input) (gsm0710_buffer_free b) in
    if ltb c count
    then (
      record b {
        octets =
            splice (splice b.octets b.writep (take c input)) 0 (take (count - c) (drop c input));
        writep = count - c;
      },
      count,
    )
    else (
      record b {
        octets = splice b.octets b.writep (take count input);
        writep = if b.writep + count == buffer_size then 0 else b.writep + count;
      },
      count,
    )

-- The buffer that `gsm0710_init` makes.
unfoldable pub new_buffer : Buffer
new_buffer = record {
  octets = replicate {A = ℕ} buffer_size 0;
  readp = 0;
  writep = 0;
  flag_found = false;
  received_count = 0;
  dropped_count = 0;
}
