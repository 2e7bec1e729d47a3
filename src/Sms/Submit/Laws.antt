-- ===== src/Sms/Submit/Laws.antt =====
-- What stands in an encoded message, and what is read back of its destination.
use chan_extra.Prelude.{
  ℕ, suc, ◌+◌, ◌*◌, ◌%◌, ◌≤◌, ◌<◌, ◌≡◌, refl, ap, ◌∙◌, ◌⊎◌, true, false, List, [], ◌∷◌, ◌++◌, arith,
  ◌==◌, if◌then◌else◌, length, length-drop, drop-drop, drop-append, u8, get_or, drop, take,
  take-append_eq, All, Bool-cases, inl, inr, Option-cases,
}
use chan_extra.Sms.Hex.{gsm_hex2int, gsm_bytes2string}
use chan_extra.Sms.Hex.Laws.{hex2int-bytes2string}
use chan_extra.Sms.Number.{gsm_dso2string, gsm_invert_numbers, gsm_is_valid_number}
use chan_extra.Sms.Number.Laws.{
  IsDigit, all_digits-All, length-invert_numbers, dso2string-invert_numbers,
}
use chan_extra.Sms.Deliver.Roundtrip.{hex, smsc_octets}
use chan_extra.Sms.Submit.{
  pdu, sca_text, tpa_text, user_data, gsm_encode_pdu, pdu_get_send_number, address_octets,
}

-- The digits of a destination, without its plus, and its type of address.
abbrev pub digits : List ℕ → List ℕ
digits tpa = if get_or tpa 0 0 == b'+' then drop 1 tpa else tpa

abbrev pub address_type : List ℕ → ℕ
address_type tpa = if get_or tpa 0 0 == b'+' then 0x91 else 0x81

-- The destination as it stands in a message.
abbrev pub address_text : List ℕ → List ℕ → List ℕ
address_text tpa rest =
    hex (u8 (length (digits tpa)))
    ++ (hex (address_type tpa) ++ (gsm_invert_numbers (digits tpa) ++ rest))

pub tpa_text_lem :
    (tpa rest : List ℕ) → tpa_text tpa ++ rest ≡ hex 0x31 ++ (hex 0 ++ address_text tpa rest)
unfolding tpa_text gsm_bytes2string
tpa_text_lem tpa rest = elim (Bool-cases (get_or tpa 0 0 == b'+')) [
  | inl plus ↦ rw plus
  | inr local ↦ rw local
]

length-digits_le : (tpa : List ℕ) → length (digits tpa) ≤ length tpa
length-digits_le tpa = ground (arith, length-drop 1 tpa)

digits-All : (tpa : List ℕ) → gsm_is_valid_number tpa ≡ true → All IsDigit (digits tpa)
unfolding gsm_is_valid_number
digits-All [] h = tt
digits-All (c ∷ tpa) h = elim (Bool-cases (c == b'+')) [
  | inl plus ↦ rw plus (all_digits-All tpa (ground arith))
  | inr local ↦ rw local (ground (arith, all_digits-All tpa))
]

-- An encoded message begins with the two addresses.
pub encode_pdu_shape :
    (sca tpa : List ℕ) (pid dcs : ℕ) (ud t : List ℕ)
    → gsm_encode_pdu sca tpa pid dcs ud ≡ pdu t
    → (gsm_is_valid_number tpa ≡ true)
      × ((length sca == 0) ≡ true ⊎ gsm_is_valid_number sca ≡ true)
      × (body : List ℕ) × (t ≡ sca_text sca ++ (tpa_text tpa ++ body))
unfolding gsm_encode_pdu
encode_pdu_shape sca tpa pid dcs ud t e = elim (Option-cases (user_data pid dcs ud)) [
  | inl full ↦ absurd (ground arith)
  | inr (buf, fits) ↦ (ground arith, ground arith, gsm_bytes2string buf, ground arith)
]

pub drop_two : (a b : ℕ) (rest : List ℕ) → drop 4 (hex a ++ (hex b ++ rest)) ≡ rest
unfolding gsm_bytes2string
drop_two a b rest = refl

pub drop_three : (a b c : ℕ) (rest : List ℕ) → drop 6 (hex a ++ (hex b ++ (hex c ++ rest))) ≡ rest
unfolding gsm_bytes2string
drop_three a b c rest = refl

address_field :
    (d rest : List ℕ) (type : ℕ)
    → All IsDigit d
    → length d < 256
    → let n = gsm_hex2int (hex (u8 (length d)) ++ (hex type ++ (gsm_invert_numbers d ++ rest))) 2 in
      let m = if n % 2 == 1 then n + 1 else n in
      gsm_dso2string
        (take m (drop 4 (hex (u8 (length d)) ++ (hex type ++ (gsm_invert_numbers d ++ rest)))))
      ≡ d
address_field d rest type h short =
    let dso = gsm_invert_numbers d in
    let n = u8 (length d) in
    let m = if n % 2 == 1 then n + 1 else n in
    let value = hex2int-bytes2string n (hex type ++ (dso ++ rest)) (omega arith) in
    let even : length dso ≡ m = ground (arith, length-invert_numbers d) in
    rw (value, drop_two n type (dso ++ rest), take-append_eq m dso rest even)
      (dso2string-invert_numbers d h)

drop_six :
    (a b : ℕ) (rest : List ℕ)
    → (drop 6 (sca_text [] ++ (hex a ++ (hex b ++ rest))) ≡ rest)
      × (gsm_hex2int (sca_text [] ++ (hex a ++ (hex b ++ rest))) 2 ≡ 0)
unfolding sca_text gsm_bytes2string gsm_invert_numbers gsm_hex2int
drop_six a b rest = (refl, refl)

-- Without a service centre, the destination of a message that is encoded, of fewer than 256
-- characters, is read back as its digits.
send_number-encode_pdu :
    (tpa : List ℕ) (pid dcs : ℕ) (ud t : List ℕ)
    → length tpa < 256
    → gsm_encode_pdu [] tpa pid dcs ud ≡ pdu t
    → pdu_get_send_number t ≡ digits tpa
unfolding pdu_get_send_number
send_number-encode_pdu tpa pid dcs ud t short e =
    let (valid, _, body, shape) = encode_pdu_shape [] tpa pid dcs ud t e in
    let text = shape ∙ ap (λ l. sca_text [] ++ l) (tpa_text_lem tpa body) in
    let rest = address_text tpa body in
    rw (text, (drop_six 0x31 0 rest).1, (drop_six 0x31 0 rest).0)
      (address_field (digits tpa) body (address_type tpa) (digits-All tpa valid)
        (omega (arith, length-digits_le tpa)))

module _ (c : ℕ) (s : List ℕ) (short : length s < 100) where
  -- The service centre: its octets, the type of an international number, and all its characters.
  sca_text_lem :
      (rest : List ℕ)
      → sca_text (c ∷ s) ++ rest
        ≡ hex (smsc_octets (c ∷ s)) ++ (hex 0x91 ++ (gsm_invert_numbers (c ∷ s) ++ rest))
  unfolding sca_text gsm_bytes2string
  sca_text_lem rest =
      let octets : address_octets (suc (length s)) ≡ smsc_octets (c ∷ s) =
        unfold address_octets in ground arith in
      let nonempty : (length (c ∷ s) == 0) ≡ false = ground arith in rw (nonempty, octets)

  drop_centre :
      (a b : ℕ) (rest : List ℕ)
      → drop
          (8 + smsc_octets (c ∷ s) * 2)
          (sca_text (c ∷ s) ++ (hex 0x31 ++ (hex 0 ++ (hex a ++ (hex b ++ rest)))))
        ≡ hex b ++ rest
  drop_centre a b rest =
      let dso = gsm_invert_numbers (c ∷ s) in
      let tail = hex 0x31 ++ (hex 0 ++ (hex a ++ (hex b ++ rest))) in
      let n = smsc_octets (c ∷ s) in
      let sum : 8 + n * 2 ≡ 4 + (length dso + 6) = omega (arith, length-invert_numbers (c ∷ s)) in
      rw
        (
          sum,
          sca_text_lem tail,
          ← drop-drop 4 (length dso + 6) (hex n ++ (hex 0x91 ++ (dso ++ tail))),
        )
        (rw (drop_two n 0x91 (dso ++ tail), ← drop-drop (length dso) 6 (dso ++ tail))
          (rw (drop-append dso tail) (drop_three 0x31 0 a (hex b ++ rest))))

  smsc_value : (rest : List ℕ) → gsm_hex2int (sca_text (c ∷ s) ++ rest) 2 ≡ smsc_octets (c ∷ s)
  smsc_value rest =
      rw (sca_text_lem rest) (hex2int-bytes2string (smsc_octets (c ∷ s)) _ (omega arith))

pub drop_one : (a : ℕ) (rest : List ℕ) → drop (2 + 2) (hex a ++ rest) ≡ drop 2 rest
unfolding gsm_bytes2string
drop_one a rest = refl

-- With a service centre of at most 100 characters, an encoded message is the two addresses and a
-- rest, and the number that is read back from it has its length from the type of address, one octet
-- too far, and its digits from the third digit of the destination on.
pub send_number-encode_pdu_smsc :
    (c : ℕ) (s tpa : List ℕ) (pid dcs : ℕ) (ud t : List ℕ)
    → length s < 100
    → gsm_encode_pdu (c ∷ s) tpa pid dcs ud ≡ pdu t
    → (body : List ℕ) × (t ≡ sca_text (c ∷ s) ++ (tpa_text tpa ++ body))
      × (pdu_get_send_number t
          ≡ gsm_dso2string
              (take (address_type tpa + 1) (drop 2 (gsm_invert_numbers (digits tpa) ++ body))))
unfolding pdu_get_send_number
send_number-encode_pdu_smsc c s tpa pid dcs ud t short e =
    let (valid, _, body, shape) = encode_pdu_shape (c ∷ s) tpa pid dcs ud t e in
    let d = digits tpa in
    let type = address_type tpa in
    let n = smsc_octets (c ∷ s) in
    let after = gsm_invert_numbers d ++ body in
    let rest = hex 0x31 ++ (hex 0 ++ (hex (u8 (length d)) ++ (hex type ++ after))) in
    let text : t ≡ sca_text (c ∷ s) ++ rest =
      shape ∙ ap (λ l. sca_text (c ∷ s) ++ l) (tpa_text_lem tpa body) in
    let skipped : 2 + 2 + n * 2 + 2 + 2 ≡ 8 + n * 2 = omega arith in
    let there : (n == 0) ≡ false = ground arith in
    let odd : (type % 2 == 1) ≡ true = ground arith in
    (
      body,
      shape,
      rw (
        text,
        smsc_value c s short rest,
        there,
        skipped,
        drop_centre c s short (u8 (length d)) type after,
        hex2int-bytes2string type after (ground arith),
        odd,
        drop_one type after,
      ),
    )
