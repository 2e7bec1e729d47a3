-- ===== src/Sms/Deliver/Roundtrip.antt =====
-- A message in the format of the standard is decoded to its fields.
use chan_extra.Prelude.{
  ℕ, ◌+◌, ◌-◌, ◌*◌, ◌/◌, ◌%◌, ◌≤◌, ◌<◌, ◌≡◌, refl, ap, ◌∙◌, some, List, [], ◌∷◌, ◌++◌, arith, ltb,
  leb, ◌==◌, if◌then◌else◌, take, drop, length, u8, true, false, All, IsByte, take-append_eq,
  drop-append_eq, length-append,
}
use chan_extra.Sms.Hex.{gsm_hex2int, gsm_bytes2string}
use chan_extra.Sms.Hex.Laws.{hex2int-bytes2string}
use chan_extra.Sms.Number.{gsm_convert_number, gsm_invert_numbers}
use chan_extra.Sms.Number.Laws.{IsDigit, length-invert_numbers, dso2string-invert_numbers}
use chan_extra.Sms.Deliver.{
  Address, PduInfo, no_address, decode_smsc, decode_oa, decode_body, gsm_decode_pdu,
}

-- One octet as two digits.
abbrev pub hex : ℕ → List ℕ
hex b = gsm_bytes2string (b ∷ [])

octet_field : (b : ℕ) (rest : List ℕ) → IsByte b → u8 (gsm_hex2int (hex b ++ rest) 2) ≡ b
octet_field b rest h = ap u8 (hex2int-bytes2string b rest h) ∙ omega arith

octet_rest : (b : ℕ) (rest : List ℕ) → drop 2 (hex b ++ rest) ≡ rest
unfolding gsm_bytes2string
octet_rest b rest = refl

-- A number as the user reads it: international numbers begin with a plus.
abbrev pub shown : ℕ → List ℕ → List ℕ
shown type digits = if type == 0x91 then b'+' ∷ digits else digits

convert_number_lem :
    (type : ℕ) (d : List ℕ)
    → All IsDigit d
    → gsm_convert_number (gsm_invert_numbers d) type ≡ shown type d
unfolding gsm_convert_number
convert_number_lem type d h = ground (arith, dso2string-invert_numbers d h)

-- Octets of the service centre's address: one for the type, one for each two digits.
abbrev pub smsc_octets : List ℕ → ℕ
smsc_octets d = (length d + length d % 2) / 2 + 1

decode_smsc_lem :
    (d : List ℕ) (type : ℕ) (rest : List ℕ)
    → All IsDigit d
    → length d ≤ 30
    → IsByte type
    → decode_smsc (hex (smsc_octets d) ++ (hex type ++ (gsm_invert_numbers d ++ rest)))
      ≡ some (record { len = smsc_octets d; type = type; number = shown type d }, rest)
unfolding decode_smsc
decode_smsc_lem d type rest digits short byte =
    let n = smsc_octets d in
    let dso = gsm_invert_numbers d in
    let even : length dso ≡ (n - 1) * 2 = omega (arith, length-invert_numbers d) in
    let small : leb 32 ((n - 1) * 2) ≡ false = ground arith in
    let some_digits : ltb 0 n ≡ true = ground arith in
    rw (
      octet_rest n (hex type ++ (dso ++ rest)),
      octet_field n (hex type ++ (dso ++ rest)) (omega arith),
      octet_rest type (dso ++ rest),
      octet_field type (dso ++ rest) byte,
      take-append_eq ((n - 1) * 2) dso rest even,
      drop-append_eq ((n - 1) * 2) dso rest even,
      convert_number_lem type d digits,
      some_digits,
      small,
    )

decode_oa_lem :
    (d : List ℕ) (type : ℕ) (rest : List ℕ)
    → All IsDigit d
    → 0 < length d
    → length d ≤ 30
    → IsByte type
    → decode_oa (hex (length d) ++ (hex type ++ (gsm_invert_numbers d ++ rest)))
      ≡ some (record { len = length d; type = type; number = shown type d }, rest)
unfolding decode_oa
decode_oa_lem d type rest digits nonempty short byte =
    let n = length d in
    let dso = gsm_invert_numbers d in
    let m = if n % 2 == 0 then n else n + 1 in
    let even : length dso ≡ m = ground (arith, length-invert_numbers d) in
    let small : leb 32 (n + 1) ≡ false = ground arith in
    let some_digits : ltb 0 n ≡ true = ground arith in
    rw (
      octet_rest n (hex type ++ (dso ++ rest)),
      octet_field n (hex type ++ (dso ++ rest)) (omega arith),
      octet_rest type (dso ++ rest),
      octet_field type (dso ++ rest) byte,
      take-append_eq m dso rest even,
      drop-append_eq m dso rest even,
      convert_number_lem type d digits,
      some_digits,
      small,
    )

-- The fields of an SMS-DELIVER with its service centre. Numbers and the time stamp are given as
-- digits in reading order; a message from the card has no service centre, `smsc = []`.
pub record Message : Type 0 where
  pub smsc_type : ℕ
  pub smsc : List ℕ
  pub first_octet : ℕ
  pub oa_type : ℕ
  pub oa : List ℕ
  pub pid : ℕ
  pub dcs : ℕ
  pub scts : List ℕ
  pub udl : ℕ
  pub ud : List ℕ

pub record IsMessage (m : Message) : Type 0 where
  pub smsc_digits : All IsDigit m.smsc
  pub smsc_short : length m.smsc ≤ 30
  pub smsc_byte : IsByte m.smsc_type
  pub first_byte : IsByte m.first_octet
  pub oa_digits : All IsDigit m.oa
  pub oa_some : 0 < length m.oa
  pub oa_short : length m.oa ≤ 30
  pub oa_byte : IsByte m.oa_type
  pub pid_byte : IsByte m.pid
  pub dcs_byte : IsByte m.dcs
  pub scts_digits : All IsDigit m.scts
  pub scts_full : length m.scts ≡ 14
  pub udl_byte : IsByte m.udl

-- GSM 03.40, section 9.2.2.1, as the text that the modem reports.
abbrev pub body_text : Message → List ℕ
body_text m = hex m.pid ++ (hex m.dcs ++ (gsm_invert_numbers m.scts ++ (hex m.udl ++ m.ud)))

abbrev pub oa_text : Message → List ℕ
oa_text m = hex (length m.oa) ++ (hex m.oa_type ++ (gsm_invert_numbers m.oa ++ body_text m))

abbrev pub smsc_text : ℕ → List ℕ → List ℕ → List ℕ
smsc_text type [] rest = hex 0 ++ rest
smsc_text type (c ∷ d) rest =
    hex (smsc_octets (c ∷ d)) ++ (hex type ++ (gsm_invert_numbers (c ∷ d) ++ rest))

abbrev pub deliver_text : Message → List ℕ
deliver_text m = smsc_text m.smsc_type m.smsc (hex m.first_octet ++ oa_text m)

abbrev pub smsc_address : ℕ → List ℕ → Address
smsc_address type [] = no_address
smsc_address type (c ∷ d) = record {
  len = smsc_octets (c ∷ d);
  type = type;
  number = shown type (c ∷ d);
}

abbrev pub decoded : Message → PduInfo
decoded m = record {
  smsc = smsc_address m.smsc_type m.smsc;
  first_octet = m.first_octet;
  tp_oa = record { len = length m.oa; type = m.oa_type; number = shown m.oa_type m.oa };
  tp_pid = m.pid;
  tp_dcs = m.dcs;
  tp_scts = m.scts;
  tp_udl = m.udl;
  tp_ud = take 320 m.ud;
}

decode_smsc_none : (rest : List ℕ) → decode_smsc (hex 0 ++ rest) ≡ some (no_address, rest)
unfolding decode_smsc
decode_smsc_none rest = rw (octet_rest 0 rest, octet_field 0 rest (omega arith))

smsc_text_lem :
    (type : ℕ) (d rest : List ℕ)
    → All IsDigit d
    → length d ≤ 30
    → IsByte type
    → decode_smsc (smsc_text type d rest) ≡ some (smsc_address type d, rest)
smsc_text_lem type [] rest digits short byte = decode_smsc_none rest
smsc_text_lem type (c ∷ d) rest digits short byte =
    decode_smsc_lem (c ∷ d) type rest digits short byte

decode_body_lem :
    (smsc oa : Address) (m : Message)
    → IsMessage m
    → decode_body smsc m.first_octet oa (body_text m)
      ≡ record (decoded m) { smsc = smsc; tp_oa = oa }
unfolding decode_body
decode_body_lem smsc oa m v =
    let stamp = gsm_invert_numbers m.scts in
    let p3 = hex m.udl ++ m.ud in
    let p2 = stamp ++ p3 in
    let full : length stamp ≡ 14 = omega (arith, length-invert_numbers m.scts, v.scts_full) in
    rw (
      octet_field m.pid (hex m.dcs ++ p2) v.pid_byte,
      octet_rest m.pid (hex m.dcs ++ p2),
      octet_field m.dcs p2 v.dcs_byte,
      octet_rest m.dcs p2,
      take-append_eq 14 stamp p3 full,
      drop-append_eq 14 stamp p3 full,
      octet_field m.udl m.ud v.udl_byte,
      octet_rest m.udl m.ud,
      dso2string-invert_numbers m.scts v.scts_digits,
    )

length-body_text : (m : Message) → IsMessage m → 14 ≤ length (body_text m)
unfolding gsm_bytes2string
length-body_text m v = omega (
  arith,
  length-append (gsm_invert_numbers m.scts) (hex m.udl ++ m.ud),
  length-invert_numbers m.scts,
  v.scts_full,
)

length-smsc_text : (type : ℕ) (d rest : List ℕ) → length rest ≤ length (smsc_text type d rest)
unfolding gsm_bytes2string
length-smsc_text type [] rest = omega arith
length-smsc_text type (c ∷ d) rest = omega (arith, length-append (gsm_invert_numbers (c ∷ d)) rest)

length-oa_text : (m : Message) → length (body_text m) ≤ length (hex m.first_octet ++ oa_text m)
unfolding gsm_bytes2string
length-oa_text m = omega (arith, length-append (gsm_invert_numbers m.oa) (body_text m))

-- Every message of the format, with a service centre or without, is decoded to its fields: numbers
-- in reading order and with their plus, the time stamp in reading order, and the user data, of
-- which at most 320 characters are kept.
pub decode_pdu-deliver_text :
    (m : Message) → IsMessage m → gsm_decode_pdu (deliver_text m) ≡ some (decoded m)
unfolding gsm_decode_pdu
decode_pdu-deliver_text m v =
    let rest = hex m.first_octet ++ oa_text m in
    let long : ltb (length (deliver_text m)) 14 ≡ false =
      ground
        (arith, length-body_text m v, length-oa_text m, length-smsc_text m.smsc_type m.smsc rest) in
    rw
      (
        long,
        smsc_text_lem m.smsc_type m.smsc rest v.smsc_digits v.smsc_short v.smsc_byte,
        octet_field m.first_octet (oa_text m) v.first_byte,
        octet_rest m.first_octet (oa_text m),
        decode_oa_lem m.oa m.oa_type (body_text m) v.oa_digits v.oa_some v.oa_short v.oa_byte,
      )
      (ap some (decode_body_lem _ _ m v))
