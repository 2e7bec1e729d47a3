-- ===== src/Mux/Send/Octets.antt =====
-- The header of a frame, as the receiver reads it.
use chan_extra.Prelude.{
  ℕ, ◌+◌, ◌*◌, ◌/◌, ◌%◌, ◌^◌, ◌≤◌, ◌<◌, ◌≡◌, refl, true, false, not, arith, bit_and, bit_or, ltb,
  ◌==◌, all_below, all_below_sound, u8, ◌&&◌,
}
use chan_extra.Mux.Receive.{f_flag}
use chan_extra.Mux.Send.{address}

address_table :
    all_below 256 (λ c.
      (bit_and (address c) 252 / 4 == c % 64) && (ltb (address c) 256 && not (address c == f_flag)))
    ≡ true
unfolding all_below address
address_table = refl

-- The channel is read from the address, which is an octet and not a flag.
pub address-channel :
    (channel : ℕ)
    → channel < 256
    → (bit_and (address channel) 252 / 4 ≡ channel % 64)
      × (address channel < 256)
      × ((address channel == f_flag) ≡ false)
address-channel channel h =
    let t = all_below_sound 256 _ channel address_table h in
    (ground arith, ground arith, ground arith)

short_table :
    all_below 128 (λ n.
      let l = bit_or 1 (u8 (n * 2)) in
      (bit_and l 254 / 2 == n) && (not (bit_and l 1 == 0) && ltb l 256))
    ≡ true
unfolding all_below
short_table = refl

-- A length of one octet.
pub short_length :
    (n : ℕ)
    → n < 128
    → (bit_and (bit_or 1 (u8 (n * 2))) 254 / 2 ≡ n)
      × ((bit_and (bit_or 1 (u8 (n * 2))) 1 == 0) ≡ false)
      × (bit_or 1 (u8 (n * 2)) < 256)
short_length n h =
    let t = all_below_sound 128 _ n short_table h in (ground arith, ground arith, ground arith)

long_table :
    all_below 513 (λ n.
      let l = u8 (bit_and 127 n * 2) in
      let m = bit_and 32640 n / 2 ^ 7 in
      (bit_and l 254 / 2 + m * 128 == n) && ((bit_and l 1 == 0) && (ltb l 256 && ltb m 256)))
    ≡ true
unfolding all_below
long_table = refl

-- A length of two octets.
pub long_length :
    (n : ℕ)
    → n ≤ 512
    → (bit_and (u8 (bit_and 127 n * 2)) 254 / 2 + bit_and 32640 n / 2 ^ 7 * 128 ≡ n)
      × ((bit_and (u8 (bit_and 127 n * 2)) 1 == 0) ≡ true)
      × (u8 (bit_and 127 n * 2) < 256)
      × (bit_and 32640 n / 2 ^ 7 < 256)
long_length n h =
    let t = all_below_sound 513 _ n long_table (omega arith) in
    (ground arith, ground arith, ground arith, ground arith)
