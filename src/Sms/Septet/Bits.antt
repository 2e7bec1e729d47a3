-- ===== src/Sms/Septet/Bits.antt =====
-- The bit operations on bytes as arithmetic, checked over all bytes.
use native.Mathlib.Nat.{mul-add-div_right, mul-add-mod_self_right, mod-eq_of_lt, div-eq_of_lt}
use chan_extra.Prelude.{
  ℕ, zero, suc, ◌+◌, ◌-◌, ◌*◌, ◌/◌, ◌%◌, ◌^◌, ◌<◌, bit_and, bit_or, ◌≡◌, refl, true, arith, ◌==◌,
  ==→eq, all_below, u8, ltb, ltb→lt, ◌∙◌, all_below_sound,
}

or_table :
    all_below 8 (λ j. all_below 256 (λ v. bit_or (v / 2 ^ j * 2 ^ j) (v % 2 ^ j) == v)) ≡ true
unfolding all_below
or_table = refl

-- The high bits of a byte and its low bits make up the byte.
pub bit_or_split : (j v : ℕ) → j < 8 → v < 256 → bit_or (v / 2 ^ j * 2 ^ j) (v % 2 ^ j) ≡ v
bit_or_split j v hj hv = ==→eq _ v (all_below_sound 256 _ v (all_below_sound 8 _ j or_table hj) hv)

and_table : all_below 8 (λ j. all_below 256 (λ v. bit_and v (2 ^ j - 1) == v % 2 ^ j)) ≡ true
unfolding all_below
and_table = refl

pub bit_and_low : (j v : ℕ) → j < 8 → v < 256 → bit_and v (2 ^ j - 1) ≡ v % 2 ^ j
bit_and_low j v hj hv = ==→eq _ _ (all_below_sound 256 _ v (all_below_sound 8 _ j and_table hj) hv)

-- An `or` of bits from `j` on with bits below `j` is a sum.
pub bit_or_add :
    (j q r : ℕ) → j < 8 → r < 2 ^ j → q * 2 ^ j + r < 256 → bit_or (q * 2 ^ j) r ≡ q * 2 ^ j + r
bit_or_add j q r hj hr hv =
    let v = q * 2 ^ j + r in
    let high : v / 2 ^ j ≡ q =
      mul-add-div_right {m = 2 ^ j} (omega arith) q r ∙ omega (arith, div-eq_of_lt hr) in
    let low : v % 2 ^ j ≡ r = mul-add-mod_self_right q (2 ^ j) r ∙ mod-eq_of_lt hr in
    cc (bit_or_split j v hj hv, high, low)

below_seven : (P : ℕ → Type 0) → P 0 → P 1 → P 2 → P 3 → P 4 → P 5 → P 6 → (i : ℕ) → i < 7 → P i
below_seven P a b c d e f g zero h = a
below_seven P a b c d e f g (suc zero) h = b
below_seven P a b c d e f g (suc (suc zero)) h = c
below_seven P a b c d e f g (suc (suc (suc zero))) h = d
below_seven P a b c d e f g (suc (suc (suc (suc zero)))) h = e
below_seven P a b c d e f g (suc (suc (suc (suc (suc zero))))) h = f
below_seven P a b c d e f g (suc (suc (suc (suc (suc (suc zero)))))) h = g
below_seven P a b c d e f g (suc (suc (suc (suc (suc (suc (suc i))))))) h = absurd (omega arith)

-- What the packing makes of the high bits of a septet and the septet after it, and what the
-- unpacking makes of that octet.
unfoldable pub octet : ℕ → ℕ → ℕ → ℕ
octet i s t = bit_or (u8 (t * 2 ^ (7 - i))) (s / 2 ^ i)

unfoldable pub septet_of : ℕ → ℕ → ℕ → ℕ
septet_of i prev o = bit_or (u8 (bit_and o (2 ^ (7 - i) - 1) * 2 ^ i)) (prev / 2 ^ (8 - i))

abbrev IsOctet : ℕ → Type 0
IsOctet i =
    (s t : ℕ)
    → s < 128
    → t < 128
    → (octet i s t ≡ t % 2 ^ (i + 1) * 2 ^ (7 - i) + s / 2 ^ i)
      × (t % 2 ^ (i + 1) * 2 ^ (7 - i) + s / 2 ^ i < 256)

pub IsOctet-sum : (i : ℕ) → i < 7 → IsOctet i
unfolding octet
IsOctet-sum =
    below_seven IsOctet (λ s t hs ht. ground (arith, bit_or_add 7 (t % 2) (s / 1)))
      (λ s t hs ht. ground (arith, bit_or_add 6 (t % 4) (s / 2)))
      (λ s t hs ht. ground (arith, bit_or_add 5 (t % 8) (s / 4)))
      (λ s t hs ht. ground (arith, bit_or_add 4 (t % 16) (s / 8)))
      (λ s t hs ht. ground (arith, bit_or_add 3 (t % 32) (s / 16)))
      (λ s t hs ht. ground (arith, bit_or_add 2 (t % 64) (s / 32)))
      (λ s t hs ht. ground (arith, bit_or_add 1 (t % 128) (s / 64)))

abbrev IsUnpacked : ℕ → Type 0
IsUnpacked i =
    (s t prev o : ℕ)
    → s < 128
    → t < 128
    → prev < 256
    → prev / 2 ^ (8 - i) ≡ s % 2 ^ i
    → o ≡ t % 2 ^ (i + 1) * 2 ^ (7 - i) + s / 2 ^ i
    → (septet_of i prev o ≡ s) × (o / 2 ^ (7 - i) ≡ t % 2 ^ (i + 1))

pub septet_of-sum : (i : ℕ) → i < 7 → IsUnpacked i
unfolding septet_of
septet_of-sum =
    below_seven IsUnpacked
      (λ s t prev o hs ht hp low e. ground (arith, bit_and_low 7 o, bit_or_add 0 (s / 1) (s % 1)))
      (λ s t prev o hs ht hp low e. ground (arith, bit_and_low 6 o, bit_or_add 1 (s / 2) (s % 2)))
      (λ s t prev o hs ht hp low e. ground (arith, bit_and_low 5 o, bit_or_add 2 (s / 4) (s % 4)))
      (λ s t prev o hs ht hp low e. ground (arith, bit_and_low 4 o, bit_or_add 3 (s / 8) (s % 8)))
      (λ s t prev o hs ht hp low e. ground (arith, bit_and_low 3 o, bit_or_add 4 (s / 16) (s % 16)))
      (λ s t prev o hs ht hp low e. ground (arith, bit_and_low 2 o, bit_or_add 5 (s / 32) (s % 32)))
      (λ s t prev o hs ht hp low e. ground (arith, bit_and_low 1 o, bit_or_add 6 (s / 64) (s % 64)))

-- The last of eight septets comes out of the octet before, whatever the next one is.
pub septet_of_seven : (s prev b : ℕ) → s < 128 → b < 256 → prev / 2 ≡ s → septet_of 7 prev b ≡ s
unfolding septet_of
septet_of_seven s prev b hs hb e = ground (arith, bit_and_low 0 b, bit_or_add 7 0 s)

or_bytes_table : all_below 256 (λ a. all_below 256 (λ b. ltb (bit_or a b) 256)) ≡ true
unfolding all_below
or_bytes_table = refl

pub bit_or-IsByte : (a b : ℕ) → a < 256 → b < 256 → bit_or a b < 256
bit_or-IsByte a b ha hb =
    ltb→lt _ _ (all_below_sound 256 _ b (all_below_sound 256 _ a or_bytes_table ha) hb)
