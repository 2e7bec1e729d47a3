-- ===== src/Card/Power.antt =====
-- The power of the modules: the port register, `g4_gsm_power_on` and `g4_gsm_power_off` for one span,
-- and `g4_power_on`, `g4_power_off` and the start of `g4_switch_off_all` for all, of
-- src/opvxg4xx/base.c. The waits between two writes are left out.
use chan_extra.Prelude.{
  ℕ, ◌+◌, ◌-◌, ◌^◌, Bool, true, false, not, ◌&&◌, ◌||◌, Option, some, List, [], ◌∷◌, ◌++◌, map,
  if◌then◌else◌, bit_and, bit_or, bind,
}
use chan_extra.Mux.Send.{gsm0710_write_frame}
use chan_extra.Card.Port.{Port}

-- `gpio0`: the value last written to the port register, and all that have been.
pub record Gpio : Type 0 where
  pub io : ℕ
  pub written : List ℕ

unfoldable pub write_io : Gpio → ℕ → Gpio
write_io g io = record { io = io; written = g.written ++ (io ∷ []) }

-- `__g4_pio0_setbit` and `__g4_pio0_setbits`, on 32 bits.
unfoldable pub pio0_setbit : Gpio → ℕ → Bool → Gpio
unfolding write_io
pio0_setbit g bit value =
    write_io g (if value then bit_or g.io (2 ^ bit) else bit_and g.io (2 ^ 32 - 1 - 2 ^ bit))

unfoldable pub pio0_setbits : Gpio → ℕ → ℕ → Gpio
unfolding write_io
pio0_setbits g mask value =
    write_io g (bit_or (bit_and g.io (2 ^ 32 - 1 - mask)) (bit_and mask value))

-- PIO0_PWR and the span.
unfoldable pub power_key : ℕ → ℕ
power_key span = 2 ^ (span + 20)

-- The module's power key is pressed and let go.
unfoldable pub press : Gpio → ℕ → Gpio
unfolding pio0_setbits power_key
press g span =
    let key = power_key span in pio0_setbits (pio0_setbits g key key) key (2 ^ 32 - 1 - key)

-- The boolean is `true` for the return of 0, `false` for -1.
unfoldable pub g4_gsm_power_on : Gpio → Port → ℕ → Bool → Gpio × Port × Bool
unfolding press
g4_gsm_power_on g p span force =
    if not p.power_on_flag || force
    then (press g span, record p { check_start = true; power = true; power_on_flag = false }, true)
    else (g, p, false)

-- GSM0710_C_CLD with the command bit, and a length of 0.
abbrev pub close_mux : List ℕ
close_mux = 195 ∷ 1 ∷ []

-- The multiplexer is told to close. `none` is a write past the end of its buffer.
unfoldable pub leave_mux : Port → Option Port
unfolding gsm0710_write_frame
leave_mux p =
    if p.mode && p.enabled
    then bind (gsm0710_write_frame p.mux 0 close_mux 239)
        (λ sent. some (record p { mux = sent.0; mode = false; enabled = false }))
    else some p

unfoldable pub g4_gsm_power_off : Gpio → Port → ℕ → Option (Gpio × Port × Bool)
unfolding leave_mux press
g4_gsm_power_off g p span =
    if p.power_on_flag
    then bind (leave_mux p)
        (λ p1. some (press g span, record p1 { power = false; power_on_flag = false }, true))
    else some (g, p, false)

-- PIO0_PWR_MASK and PIO0_DTR_MASK.
abbrev pub pwr_mask : ℕ
pwr_mask = 0xf00000

abbrev pub dtr_mask : ℕ
dtr_mask = 0xf

-- The spans of the card, in order.
unfoldable pub g4_power_on : Gpio → List Port → Gpio × List Port
unfolding pio0_setbits
g4_power_on g spans = (
  pio0_setbits
      (pio0_setbits (pio0_setbits (pio0_setbits g pwr_mask 0) pwr_mask pwr_mask) dtr_mask 0)
      pwr_mask 0,
  map (λ (p : Port). record p { check_start = true }) spans,
)

unfoldable pub g4_power_off : Gpio → List Port → ℕ → Gpio × List Port
unfolding pio0_setbits
g4_power_off g spans flag = (
  pio0_setbits (pio0_setbits g pwr_mask flag) pwr_mask 0,
  map (λ (p : Port). record p { power = false }) spans,
)

-- The power keys of the modules that are on, of the spans from `i` on.
unfoldable pub off_flag : List Port → ℕ → ℕ
unfolding power_key
off_flag [] i = 0
off_flag (p ∷ ps) i =
    let rest = off_flag ps (i + 1) in if p.power_on_flag then bit_or (power_key i) rest else rest
