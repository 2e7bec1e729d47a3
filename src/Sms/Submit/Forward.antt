-- ===== src/Sms/Submit/Forward.antt =====
-- A received message, sent on to another number.
use chan_extra.Prelude.{
  ℕ, ◌+◌, ◌*◌, ◌%◌, ◌≤◌, ◌≡◌, refl, List, [], ◌∷◌, ◌++◌, arith, ◌==◌, if◌then◌else◌, length, get_or,
  drop, drop-drop, drop-append, drop-append_eq,
}
use chan_extra.Sms.Hex.{gsm_hex2int, gsm_bytes2string}
use chan_extra.Sms.Hex.Laws.{hex2int-bytes2string}
use chan_extra.Sms.Number.{gsm_invert_numbers}
use chan_extra.Sms.Number.Laws.{length-invert_numbers}
use chan_extra.Sms.Deliver.Roundtrip.{
  hex, smsc_octets, Message, IsMessage, body_text, oa_text, smsc_text, deliver_text,
}
use chan_extra.Sms.Submit.{sca_text, tpa_text, is_zero_text, gsm_forward_pdu}
use chan_extra.Sms.Submit.Laws.{drop_two}

-- The service centre is skipped, and the first octet.
skip_smsc :
    (type : ℕ) (d : List ℕ) (first : ℕ) (rest : List ℕ)
    → length d ≤ 30
    → drop
        (2 + gsm_hex2int (smsc_text type d (hex first ++ rest)) 2 * 2 + 2)
        (smsc_text type d (hex first ++ rest))
      ≡ rest
skip_smsc type [] first rest short =
    rw (hex2int-bytes2string 0 (hex first ++ rest) (omega arith)) (drop_two 0 first rest)
skip_smsc type (c ∷ d) first rest short =
    let n = smsc_octets (c ∷ d) in
    let dso = gsm_invert_numbers (c ∷ d) in
    let tail = hex first ++ rest in
    let sum : 2 + n * 2 + 2 ≡ 4 + (length dso + 2) = omega (arith, length-invert_numbers (c ∷ d)) in
    rw
      (
        hex2int-bytes2string n (hex type ++ (dso ++ tail)) (omega arith),
        sum,
        ← drop-drop 4 (length dso + 2) (hex n ++ (hex type ++ (dso ++ tail))),
      )
      (rw (drop_two n type (dso ++ tail), ← drop-drop (length dso) 2 (dso ++ tail))
        (rw (drop-append dso tail) (octet_rest first rest)))
  where
    octet_rest : (b : ℕ) (r : List ℕ) → drop 2 (hex b ++ r) ≡ r
    octet_rest b r = unfold gsm_bytes2string in refl

-- The sender is skipped.
skip_oa :
    (m : Message)
    → IsMessage m
    → let n = gsm_hex2int (oa_text m) 2 in
      drop (2 + 2 + (if n % 2 == 1 then n + 1 else n)) (oa_text m) ≡ body_text m
skip_oa m v =
    let n = length m.oa in
    let dso = gsm_invert_numbers m.oa in
    let k = if n % 2 == 1 then n + 1 else n in
    let even : length dso ≡ k = ground (arith, length-invert_numbers m.oa) in
    let short = v.oa_short in
    rw
      (
        hex2int-bytes2string n (hex m.oa_type ++ (dso ++ body_text m)) (omega arith),
        ← drop-drop 4 k (oa_text m),
        drop_two n m.oa_type (dso ++ body_text m),
      )
      (drop-append_eq k dso (body_text m) even)

copied :
    (m : Message)
    → IsMessage m
    → let pid = body_text m in
      let dcs = drop 2 pid in
      get_or pid 0 0
        ∷ get_or pid 1 0
        ∷ get_or dcs 0 0
        ∷ get_or dcs 1 0
        ∷ b'0'
        ∷ b'0'
        ∷ drop (2 + 14) dcs
      ≡ hex m.pid ++ (hex m.dcs ++ (b'0' ∷ b'0' ∷ (hex m.udl ++ m.ud)))
unfolding gsm_bytes2string
copied m v =
    let stamp = gsm_invert_numbers m.scts in
    let full : length stamp ≡ 14 = omega (arith, length-invert_numbers m.scts, v.scts_full) in
    rw (drop-append_eq 14 stamp (hex m.udl ++ m.ud) full)

-- A message of the format is sent on with its protocol identifier, coding, length and user data
-- unchanged, and its time stamp replaced by a validity period of 0; a service centre given as "0"
-- is none.
pub forward_pdu-deliver_text :
    (m : Message) (tpa sca : List ℕ)
    → IsMessage m
    → gsm_forward_pdu (deliver_text m) tpa sca
      ≡ sca_text (if is_zero_text sca then [] else sca)
        ++ (tpa_text tpa ++ (hex m.pid ++ (hex m.dcs ++ (b'0' ∷ b'0' ∷ (hex m.udl ++ m.ud)))))
unfolding gsm_forward_pdu
forward_pdu-deliver_text m tpa sca v =
    rw (skip_smsc m.smsc_type m.smsc m.first_octet (oa_text m) v.smsc_short, skip_oa m v)
      (rw (copied m v))
