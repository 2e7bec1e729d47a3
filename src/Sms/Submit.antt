-- ===== src/Sms/Submit.antt =====
-- Messages to send: `gsm_encode_pdu`, `gsm_encode_pdu_ucs2`, `gsm_forward_pdu` and
-- `pdu_get_send_number` of src/libgsmat/gsm_sms.c. The text that goes to `pDst` is returned; that
-- it has the room is the caller's duty. The length that `gsm_encode_pdu` returns is that of the text.
pub mod Laws
pub mod Forward
use chan_extra.Prelude.{
  ℕ, zero, suc, ◌+◌, ◌-◌, ◌*◌, ◌/◌, ◌%◌, Bool, true, false, not, ◌&&◌, ◌||◌, Option, none, some,
  List, [], ◌∷◌, ◌++◌, ltb, leb, ◌==◌, if◌then◌else◌, length, u8, get_or, drop, take,
}
use chan_extra.Sms.Hex.{gsm_hex2int, gsm_bytes2string}
use chan_extra.Sms.Number.{gsm_dso2string, gsm_invert_numbers, gsm_is_valid_number}
use chan_extra.Sms.Septet.{gsm_encode7bit}
use chan_extra.Sms.Charset.{my_utf8_to_unicode, to_upper_string, code_convert, Iconv}

-- `invalid` is the return of 0, `undefined` a write past the end of a local array.
pub data Encoded : Type 0 where
  invalid undefined : Encoded
  pdu : List ℕ → Encoded

-- `((char)(n rounded up to even)) / 2 + 1`, stored in a byte; `char` is signed.
unfoldable pub address_octets : ℕ → ℕ
address_octets n =
    let c = u8 (if n % 2 == 0 then n else n + 1) in
    if ltb c 128 then c / 2 + 1 else u8 (257 - (256 - c) / 2)

-- The service centre, for either function.
unfoldable pub sca_text : List ℕ → List ℕ
unfolding address_octets
sca_text sca =
    (if length sca == 0
      then gsm_bytes2string (0 ∷ [])
      else gsm_bytes2string (address_octets (length sca) ∷ 0x91 ∷ []))
    ++ gsm_invert_numbers sca

-- The first octet, the reference and the destination.
unfoldable pub tpa_text : List ℕ → List ℕ
tpa_text tpa =
    let rest = drop 1 tpa in
    if get_or tpa 0 0 == b'+'
    then gsm_bytes2string (0x31 ∷ 0 ∷ u8 (length rest) ∷ 0x91 ∷ []) ++ gsm_invert_numbers rest
    else gsm_bytes2string (0x31 ∷ 0 ∷ u8 (length tpa) ∷ 0x81 ∷ []) ++ gsm_invert_numbers tpa

-- What stands in `buf`, of 256 bytes, when the user data are written out. `none` is a write past
-- its end or past that of `out`, of 255 bytes. The conversion of UCS-2 adds a NUL.
unfoldable pub user_data : ℕ → ℕ → List ℕ → Option (List ℕ)
user_data pid dcs ud =
    if dcs == 0
    then elim (gsm_encode7bit (ud ++ (0 ∷ []))) [
      | none ↦ none
      | some (octets, n) ↦
          if leb (length octets + 4) 256 then some (pid ∷ dcs ∷ 0 ∷ n ∷ octets) else none
    ]
    else (if dcs == 8
        then (let out = my_utf8_to_unicode ud in
            if leb (length out) 255 && leb (length out + 5) 256
            then some (pid ∷ dcs ∷ 0 ∷ u8 (length out) ∷ out)
            else none)
        else (if leb (length ud + 4) 256 then some (pid ∷ dcs ∷ 0 ∷ u8 (length ud) ∷ ud) else none))

unfoldable pub gsm_encode_pdu : List ℕ → List ℕ → ℕ → ℕ → List ℕ → Encoded
unfolding sca_text tpa_text user_data
gsm_encode_pdu sca tpa pid dcs ud =
    if not (gsm_is_valid_number tpa)
    then invalid
    else (if not (length sca == 0) && not (gsm_is_valid_number sca)
        then invalid
        else elim (user_data pid dcs ud) [
          | none ↦ undefined
          | some buf ↦ pdu (sca_text sca ++ (tpa_text tpa ++ gsm_bytes2string buf))
        ])

unfoldable pub is_prefix : List ℕ → List ℕ → Bool
is_prefix [] text = true
is_prefix (p ∷ ps) [] = false
is_prefix (p ∷ ps) (c ∷ text) = p == c && is_prefix ps text

-- Whether `strstr` finds the pattern.
unfoldable pub strstr : List ℕ → List ℕ → Bool
unfolding is_prefix
strstr [] pattern = is_prefix pattern []
strstr (c ∷ text) pattern = is_prefix pattern (c ∷ text) || strstr text pattern

unfoldable pub is_ascii : List ℕ → Bool
is_ascii [] = true
is_ascii (c ∷ text) = ltb c 128 && is_ascii text

abbrev pub ascii_name : List ℕ
ascii_name = b'A' ∷ b'S' ∷ b'C' ∷ b'I' ∷ b'I' ∷ []

abbrev pub utf8_name : List ℕ
utf8_name = b'U' ∷ b'T' ∷ b'F' ∷ b'-' ∷ b'8' ∷ []

-- An empty text stands for a NULL `smsc` or `coding`, which are treated alike. Texts shorter than
-- `mesg` (1024) and `text_coding` (256) are copied whole. `stale` is what `mesg` holds before
-- anything is written to it; the result of the conversion is not looked at.
unfoldable pub gsm_encode_pdu_ucs2 : Iconv → List ℕ → List ℕ → List ℕ → List ℕ → List ℕ → Encoded
unfolding strstr is_ascii to_upper_string code_convert
gsm_encode_pdu_ucs2 iconv stale smsc dest sms_data coding =
    let text_coding =
      if length coding == 0 then ascii_name else to_upper_string (take 256 coding) in
    let mesg = take 1024 sms_data in
    if strstr text_coding utf8_name
    then gsm_encode_pdu smsc dest 0 (if is_ascii mesg then 0 else 8) mesg
    else (if strstr text_coding ascii_name
        then gsm_encode_pdu smsc dest 0 0 mesg
        else gsm_encode_pdu smsc dest 0 8
            (code_convert iconv text_coding utf8_name sms_data stale 1024).1)

-- `strcmp` with "0".
unfoldable pub is_zero_text : List ℕ → Bool
is_zero_text [] = false
is_zero_text (c ∷ []) = c == b'0'
is_zero_text (c ∷ d ∷ text) = false

-- `SCA` of "0" stands for none. The source is a received message: the octets up to its protocol
-- identifier are skipped.
unfoldable pub gsm_forward_pdu : List ℕ → List ℕ → List ℕ → List ℕ
unfolding sca_text tpa_text is_zero_text
gsm_forward_pdu src_pdu tpa sca_arg =
    let sca = if is_zero_text sca_arg then [] else sca_arg in
    let len = gsm_hex2int src_pdu 2 in
    let oa = drop (2 + len * 2 + 2) src_pdu in
    let digits = gsm_hex2int oa 2 in
    let len' = if digits % 2 == 1 then digits + 1 else digits in
    let pid = drop (2 + 2 + len') oa in
    let dcs = drop 2 pid in
    sca_text sca
    ++ (tpa_text tpa
        ++ (get_or pid 0 0
            ∷ get_or pid 1 0
            ∷ get_or dcs 0 0
            ∷ get_or dcs 1 0
            ∷ b'0'
            ∷ b'0'
            ∷ drop (2 + 14) dcs))

-- The destination of a message to send.
unfoldable pub pdu_get_send_number : List ℕ → List ℕ
pdu_get_send_number src =
    let number_len = gsm_hex2int src 2 in
    let p =
      if number_len == 0 then drop (2 + 2 + 2) src else drop (2 + 2 + number_len * 2 + 2 + 2) src in
    let digits = gsm_hex2int p 2 in
    let n = if digits % 2 == 1 then digits + 1 else digits in
    gsm_dso2string (take n (drop (2 + 2) p))
