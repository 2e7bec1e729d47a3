-- ===== src/Sms/Septet/Pack.antt =====
-- Unpacking inverts packing: eight septets in seven octets, and what follows them does not matter.
use native.Mathlib.Nat.{div-le_self}
use native.Mathlib.Decide.{dec_lt}
use chan_extra.Prelude.{
  ℕ, suc, ◌+◌, ◌-◌, ◌/◌, ◌%◌, ◌^◌, ◌≤◌, ◌<◌, bit_and, ◌≡◌, refl, ap, ap₂, ◌∙◌, inl, inr, Bool-cases,
  ◌==◌, List, [], ◌∷◌, ◌++◌, arith, length, take, All, IsByte, IsSeptet,
}
use chan_extra.Sms.Septet.{pack, unpack}
use chan_extra.Sms.Septet.Bits.{
  octet, septet_of, IsOctet-sum, septet_of-sum, septet_of_seven, bit_and_low, bit_or-IsByte,
}

pack_first : (n left t : ℕ) (ps : List ℕ) → n % 8 ≡ 0 → pack n left (t ∷ ps) ≡ pack (n + 1) t ps
unfolding pack
pack_first n left t ps h = ground arith

pack_step :
    (i n s t : ℕ) (ps : List ℕ)
    → n % 8 ≡ i + 1
    → pack n (s / 2 ^ i) (t ∷ ps) ≡ octet i s t ∷ pack (n + 1) (t / 2 ^ (i + 1)) ps
unfolding pack octet
pack_step i n s t ps h =
    let seven : 8 - (i + 1) ≡ 7 - i = omega arith in rw (h, pack) (rw seven (ground arith))

unpack_step :
    (f i prev b : ℕ) (bs : List ℕ)
    → i < 8
    → unpack (suc f) i prev (b ∷ bs) ≡ septet_of i prev b ∷ unpack f (i + 1) b bs
unfolding unpack septet_of
unpack_step f i prev b bs h = ground arith

unpack_eight :
    (f prev : ℕ) (bs : List ℕ)
    → 1 ≤ length bs
    → unpack (suc f) 8 prev bs ≡ bit_and prev 127 ∷ unpack f 1 prev bs
unfolding unpack
unpack_eight f prev [] h = absurd (omega arith)
unpack_eight f prev (b ∷ bs) h = refl

-- A list that ends in the NUL.
abbrev pub nul_ended : List ℕ → List ℕ
nul_ended ss = ss ++ (0 ∷ [])

-- Fuel for one septet and those of the list, and `k` more.
abbrev pub fuel_for : List ℕ → ℕ → ℕ
fuel_for [] k = suc k
fuel_for (t ∷ ss) k = suc (fuel_for ss k)

-- From the octets come `s` and then the list.
abbrev pub Unpacks : List ℕ → ℕ → ℕ → ℕ → ℕ → List ℕ → Type 0
Unpacks ss k i s prev octets =
    take (suc (length ss)) (unpack (fuel_for ss k) i prev octets) ≡ s ∷ ss

-- The unpacker is where the packer was: `prev` holds the low `i` bits of `s`.
abbrev Low : ℕ → ℕ → ℕ → Type 0
Low i s prev = (s < 128) × (prev < 256) × (prev / 2 ^ (8 - i) ≡ s % 2 ^ i)

octet-Low :
    (i s t prev : ℕ)
    → i < 7
    → Low i s prev
    → t < 128
    → (septet_of i prev (octet i s t) ≡ s) × Low (i + 1) t (octet i s t)
octet-Low i s t prev hi (hs, hp, low) ht =
    let sum = IsOctet-sum i hi s t hs ht in
    let back = septet_of-sum i hi s t prev (octet i s t) hs ht hp low sum.0 in
    let seven : 8 - (i + 1) ≡ 7 - i = omega arith in (back.0, (ht, omega arith, rw seven back.1))

module _ (k i n s prev : ℕ) (pad : List ℕ) (hi : i < 7) (hn : n % 8 ≡ i + 1)
    (low : Low i s prev) where
  middle_nil : Unpacks [] k i s prev (pack n (s / 2 ^ i) (0 ∷ []) ++ pad)
  middle_nil = rw (pack_step i n s 0 [] hn) (
      rw
        (unpack_step k i prev (octet i s 0) (pack (n + 1) (0 / 2 ^ (i + 1)) [] ++ pad)
          (omega arith))
        (ap (λ x. x ∷ []) (octet-Low i s 0 prev hi low (omega arith)).0))

  middle_cons :
      (t : ℕ) (ss : List ℕ)
      → t < 128
      → Unpacks ss k (i + 1) t (octet i s t) (pack (n + 1) (t / 2 ^ (i + 1)) (nul_ended ss) ++ pad)
      → Unpacks (t ∷ ss) k i s prev (pack n (s / 2 ^ i) (t ∷ nul_ended ss) ++ pad)
  middle_cons t ss ht ih = rw (pack_step i n s t (nul_ended ss) hn) (
      rw
        (unpack_step (fuel_for ss k) i prev (octet i s t)
          (pack (n + 1) (t / 2 ^ (i + 1)) (nul_ended ss) ++ pad) (omega arith))
        (ap₂ ◌∷◌ (octet-Low i s t prev hi low ht).0 ih))

  length_cons :
      (t : ℕ) (ss : List ℕ)
      → length (pack n (s / 2 ^ i) (t ∷ nul_ended ss) ++ pad)
        ≡ suc (length (pack (n + 1) (t / 2 ^ (i + 1)) (nul_ended ss) ++ pad))
  length_cons t ss = rw (pack_step i n s t (nul_ended ss) hn)

pack_second :
    (n t u : ℕ) (ps : List ℕ)
    → n % 8 ≡ 1
    → pack n t (u ∷ ps) ≡ octet 0 t u ∷ pack (n + 1) (u / 2) ps
pack_second n t u ps h =
    let whole : t / 2 ^ 0 ≡ t = omega arith in rw whole at (pack_step 0 n t u ps (omega arith))

module _ (n left s prev : ℕ) (pad : List ℕ) (hn : n % 8 ≡ 0) (hs : s < 128)
    (half : prev / 2 ≡ s) where
  last_nil :
      (k : ℕ)
      → All IsByte pad
      → 0 < length (pack n left (0 ∷ []) ++ pad)
      → Unpacks [] k 7 s prev (pack n left (0 ∷ []) ++ pad)
  unfolding pack
  last_nil k bytes room =
      rw (pack_first n left 0 [] hn) (out pad bytes (rw (pack_first n left 0 [] hn) at room))
    where
      out : (l : List ℕ) → All IsByte l → 0 < length l → Unpacks [] k 7 s prev l
      out [] h r = absurd (omega arith)
      out (b ∷ bs) h r =
          rw (unpack_step k 7 prev b bs (omega arith))
            (ap (λ x. x ∷ []) (septet_of_seven s prev b hs h.0 half))

  last_two :
      (f t u : ℕ) (ps : List ℕ)
      → t < 128
      → u < 128
      → 0 < length (pack (n + 1 + 1) (u / 2) ps ++ pad)
      → unpack (suc (suc f)) 7 prev (pack n left (t ∷ u ∷ ps) ++ pad)
        ≡ s ∷ t ∷ unpack f 1 (octet 0 t u) (pack (n + 1 + 1) (u / 2) ps ++ pad)
  last_two f t u ps ht hu room =
      let o = octet 0 t u in
      let rest = pack (n + 1 + 1) (u / 2) ps ++ pad in
      let sum = IsOctet-sum 0 (omega arith) t u ht hu in
      rw (pack_first n left t (u ∷ ps) hn) (
        rw (pack_second (n + 1) t u ps (omega arith)) (
          unpack_step (suc f) 7 prev o rest (omega arith)
          ∙ ap₂ ◌∷◌ (septet_of_seven s prev o hs (omega arith) half) (
              unpack_eight f o rest room
              ∙ ap (λ x. x ∷ unpack f 1 o rest)
                  (bit_and_low 7 o (omega arith) (omega arith) ∙ omega arith))))

-- The state after the first two septets of a new group, with the lengths of what is left.
module _ (k n left s prev t u : ℕ) (ps pad : List ℕ) (hn : n % 8 ≡ 0) (ht : t < 128)
    (hu : u < 128) where
  group_length :
      length (pack n left (t ∷ u ∷ ps) ++ pad) ≡ suc (length (pack (n + 1 + 1) (u / 2) ps ++ pad))
  group_length =
      rw (pack_first n left t (u ∷ ps) hn) (rw (pack_second (n + 1) t u ps (omega arith)))

  group-Low : Low 1 u (octet 0 t u)
  group-Low = let sum = IsOctet-sum 0 (omega arith) t u ht hu in (hu, omega arith, omega arith)

mutual
  unpack-pack_middle :
      (ss : List ℕ) (k i n s prev : ℕ) (pad : List ℕ)
      → i < 7
      → n % 8 ≡ i + 1
      → Low i s prev
      → All IsSeptet ss
      → All IsByte pad
      → length ss < length (pack n (s / 2 ^ i) (nul_ended ss) ++ pad)
      → Unpacks ss k i s prev (pack n (s / 2 ^ i) (nul_ended ss) ++ pad)
  unpack-pack_middle [] k i n s prev pad hi hn low hss hpad room =
      middle_nil k i n s prev pad hi hn low
  unpack-pack_middle (t ∷ ss) k i n s prev pad hi hn low hss hpad room =
      let o = octet i s t in
      let next = (octet-Low i s t prev hi low hss.0).1 in
      let left_room = length_cons k i n s prev pad hi hn low t ss in
      middle_cons k i n s prev pad hi hn low t ss hss.0 (elim (dec_lt (i + 1) 7) [
        | yes more ↦
            unpack-pack_middle ss k (i + 1) (n + 1) t o pad more (omega arith) next hss.1 hpad
              (omega arith)
        | no last ↦
            let seven : i + 1 ≡ 7 = omega arith in
            let half : o / 2 ^ (8 - 7) ≡ t % 2 ^ 7 = rw seven at (next.2) in
            let room' : length ss < length (pack (n + 1) (t / 2 ^ 7) (nul_ended ss) ++ pad) =
              rw seven at (
                let r : length ss < length (pack (n + 1) (t / 2 ^ (i + 1)) (nul_ended ss) ++ pad) =
                  omega arith in
                r) in
            rw seven (
              unpack-pack_last ss k (n + 1) (t / 2 ^ 7) t o pad (omega arith) hss.0 (omega arith)
                hss.1 hpad room')
      ])

  unpack-pack_last :
      (ss : List ℕ) (k n left s prev : ℕ) (pad : List ℕ)
      → n % 8 ≡ 0
      → s < 128
      → prev / 2 ≡ s
      → All IsSeptet ss
      → All IsByte pad
      → length ss < length (pack n left (nul_ended ss) ++ pad)
      → Unpacks ss k 7 s prev (pack n left (nul_ended ss) ++ pad)
  unpack-pack_last [] k n left s prev pad hn hs half hss hpad room =
      last_nil n left s prev pad hn hs half k hpad room
  unpack-pack_last (t ∷ []) k n left s prev pad hn hs half hss hpad room =
      let more = group_length k n left s prev t 0 [] pad hn hss.0 (omega arith) in
      ap (λ (l : List ℕ). take 2 l)
        (last_two n left s prev pad hn hs half k t 0 [] hss.0 (omega arith) (omega arith))
  unpack-pack_last (t ∷ u ∷ ss) k n left s prev pad hn hs half hss hpad room =
      let more = group_length k n left s prev t u (nul_ended ss) pad hn hss.0 hss.1.0 in
      rw
        (last_two n left s prev pad hn hs half (fuel_for ss k) t u (nul_ended ss) hss.0 hss.1.0
          (omega arith))
        (ap (λ l. s ∷ t ∷ l)
          (unpack-pack_middle ss k 1 (n + 1 + 1) u (octet 0 t u) pad (omega arith) (omega arith)
            (group-Low k n left s prev t u (nul_ended ss) pad hn hss.0 hss.1.0) hss.1.1 hpad
            (omega arith)))

fuel_for_lem : (ss : List ℕ) (k : ℕ) → fuel_for ss k ≡ suc (length ss + k)
fuel_for_lem [] k = omega arith
fuel_for_lem (s ∷ ss) k = omega (arith, fuel_for_lem ss k)

length-pack_le : (n left : ℕ) (ps : List ℕ) → length (pack n left ps) ≤ length ps
unfolding pack
length-pack_le n left [] = omega arith
length-pack_le n left (p ∷ ps) =
    ground (arith, length-pack_le (n + 1) p ps, length-pack_le (n + 1) (p / 2 ^ (n % 8)) ps)

-- The first septet of all gives no octet of its own.
pub length-pack : (ps : List ℕ) → length (pack 0 0 ps) ≤ length ps - 1
length-pack [] = unfold pack in omega arith
length-pack (p ∷ ps) =
    omega (arith, length-pack_le 1 p ps, ap (λ l. length l) (pack_first 0 0 p ps refl))

-- `n` septets and a NUL, packed, are had back as the first `n` of what is unpacked with fuel of `n`
-- at least, whatever bytes pad the octets, if there are `n` bytes then.
pub unpack-pack :
    (ss pad : List ℕ) (f : ℕ)
    → All IsSeptet ss
    → All IsByte pad
    → length ss ≤ f
    → length ss ≤ length (pack 0 0 (nul_ended ss) ++ pad)
    → take (length ss) (unpack f 0 0 (pack 0 0 (nul_ended ss) ++ pad)) ≡ ss
unpack-pack [] pad f hss hpad hf hl = refl
unpack-pack (s ∷ ss) pad f hss hpad hf hl =
    let k = f - suc (length ss) in
    let enough : f ≡ fuel_for ss k = omega (arith, fuel_for_lem ss k) in
    let whole : s / 2 ^ 0 ≡ s = omega arith in
    let first = pack_first 0 0 s (nul_ended ss) refl in
    rw (enough, first)
      (rw whole at (
        unpack-pack_middle ss k 0 1 s 0 pad (omega arith) (omega arith)
          (hss.0, omega arith, omega arith) hss.1 hpad (rw (whole, ← first) (omega arith))))

pub pack-IsByte :
    (n left : ℕ) (ps : List ℕ) → left < 256 → All IsByte ps → All IsByte (pack n left ps)
unfolding pack
pack-IsByte n left [] h hps = tt
pack-IsByte n left (p ∷ ps) h hps = elim (Bool-cases (n % 8 == 0)) [
  | inl first ↦ rw first (pack-IsByte (n + 1) p ps hps.0 hps.1)
  | inr later ↦ rw later (
    bit_or-IsByte _ left (omega arith) h,
    pack-IsByte (n + 1) (p / 2 ^ (n % 8)) ps (omega (arith, div-le_self p (2 ^ (n % 8)))) hps.1,
  )
]
