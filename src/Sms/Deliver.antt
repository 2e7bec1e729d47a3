-- ===== src/Sms/Deliver.antt =====
-- Received messages: `gsm_decode_pdu` of src/libgsmat/gsm_sms.c and its field readers. A reader
-- takes the text from `body` on and returns the field beside the text from `pEnd` on. The arrays of
-- the callers are padded with zeros, so the text past its end reads as empty.
pub mod Roundtrip
use chan_extra.Prelude.{
  ℕ, ◌+◌, ◌-◌, ◌*◌, ◌%◌, Option, none, some, List, [], ltb, leb, ◌==◌, if◌then◌else◌, take, drop,
  length, u8, Bool, true, false, bind,
}
use chan_extra.Sms.Hex.{gsm_hex2int}
use chan_extra.Sms.Number.{gsm_dso2string, gsm_convert_number}

-- An address: its length and type as they stand in the message, and the number as text.
pub record Address : Type 0 where
  pub len : ℕ
  pub type : ℕ
  pub number : List ℕ

-- `gsm_sms_pdu_info`; `index` is never set.
pub record PduInfo : Type 0 where
  pub smsc : Address
  pub first_octet : ℕ
  pub tp_oa : Address
  pub tp_pid : ℕ
  pub tp_dcs : ℕ
  pub tp_scts : List ℕ
  pub tp_udl : ℕ
  pub tp_ud : List ℕ

abbrev pub no_address : Address
no_address = record { len = 0; type = 0; number = [] }

unfoldable pub pdu_get_smsc_len : List ℕ → ℕ × List ℕ
pdu_get_smsc_len body = (u8 (gsm_hex2int body 2), drop 2 body)

unfoldable pub pdu_get_smsc_toa : List ℕ → ℕ × List ℕ
pdu_get_smsc_toa body = (u8 (gsm_hex2int body 2), drop 2 body)

unfoldable pub pdu_get_smsc_number : List ℕ → ℕ → List ℕ × List ℕ
pdu_get_smsc_number body smsc_len = let n = (smsc_len - 1) * 2 in (take n body, drop n body)

unfoldable pub pdu_get_first_octet : List ℕ → ℕ × List ℕ
pdu_get_first_octet body = (u8 (gsm_hex2int body 2), drop 2 body)

unfoldable pub pdu_get_tpoa_length : List ℕ → ℕ × List ℕ
pdu_get_tpoa_length body = (u8 (gsm_hex2int body 2), drop 2 body)

unfoldable pub pdu_get_tpoa_type : List ℕ → ℕ × List ℕ
pdu_get_tpoa_type body = (u8 (gsm_hex2int body 2), drop 2 body)

unfoldable pub pdu_get_tpoa_number : List ℕ → ℕ → List ℕ × List ℕ
pdu_get_tpoa_number body oa_len =
    let n = if oa_len % 2 == 0 then oa_len else oa_len + 1 in (take n body, drop n body)

unfoldable pub pdu_get_tppid : List ℕ → ℕ × List ℕ
pdu_get_tppid body = (u8 (gsm_hex2int body 2), drop 2 body)

unfoldable pub pdu_get_tpdcs : List ℕ → ℕ × List ℕ
pdu_get_tpdcs body = (u8 (gsm_hex2int body 2), drop 2 body)

unfoldable pub pdu_get_tpscts : List ℕ → List ℕ × List ℕ
pdu_get_tpscts body = (take 14 body, drop 14 body)

unfoldable pub pdu_get_tpudl : List ℕ → ℕ × List ℕ
pdu_get_tpudl body = (u8 (gsm_hex2int body 2), drop 2 body)

-- The address of the service centre; `none` is the return of -1 for a number that is too long.
unfoldable pub decode_smsc : List ℕ → Option (Address × List ℕ)
unfolding pdu_get_smsc_len pdu_get_smsc_toa pdu_get_smsc_number
decode_smsc p =
    let (len, p1) = pdu_get_smsc_len p in
    let (toa, p2) = pdu_get_smsc_toa p1 in
    let (dso, p3) = pdu_get_smsc_number p2 len in
    if ltb 0 len
    then (if leb 32 ((len - 1) * 2)
        then none
        else some (record { len = len; type = toa; number = gsm_convert_number dso toa }, p3))
    else some (no_address, p1)

-- The address of the sender.
unfoldable pub decode_oa : List ℕ → Option (Address × List ℕ)
unfolding pdu_get_tpoa_length pdu_get_tpoa_type pdu_get_tpoa_number
decode_oa p =
    let (len, p1) = pdu_get_tpoa_length p in
    let (type, p2) = pdu_get_tpoa_type p1 in
    let (dso, p3) = pdu_get_tpoa_number p2 len in
    if ltb 0 len
    then (if leb 32 (len + 1)
        then none
        else some (record { len = len; type = type; number = gsm_convert_number dso type }, p3))
    else some (no_address, p1)

-- What follows the sender's address.
unfoldable pub decode_body : Address → ℕ → Address → List ℕ → PduInfo
unfolding pdu_get_tppid pdu_get_tpdcs pdu_get_tpscts pdu_get_tpudl
decode_body smsc first_octet oa p =
    let (pid, p1) = pdu_get_tppid p in
    let (dcs, p2) = pdu_get_tpdcs p1 in
    let (scts, p3) = pdu_get_tpscts p2 in
    let (udl, p4) = pdu_get_tpudl p3 in
    record {
      smsc = smsc;
      first_octet = first_octet;
      tp_oa = oa;
      tp_pid = pid;
      tp_dcs = dcs;
      tp_scts = gsm_dso2string scts;
      tp_udl = udl;
      tp_ud = take 320 p4;
    }

-- `none` is the return of -1.
unfoldable pub gsm_decode_pdu : List ℕ → Option PduInfo
unfolding decode_smsc decode_oa decode_body pdu_get_first_octet
gsm_decode_pdu pdu =
    if ltb (length pdu) 14
    then none
    else (bind (decode_smsc pdu) λ (smsc, p).
        let (first, q) = pdu_get_first_octet p in
        bind (decode_oa q) λ (oa, r). some (decode_body smsc first oa r))
