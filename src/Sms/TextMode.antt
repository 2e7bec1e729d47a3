-- ===== src/Sms/TextMode.antt =====
-- Messages in text mode: `gsm_get_dot_string`, `gsm_check_sms_mode` and `gsm_text2sm_event2` of
-- src/libgsmat/gsm_sms.c.
use chan_extra.Prelude.{
  ℕ, ◌-◌, not, Option, none, some, List, [], ◌∷◌, ◌++◌, bind, ltb, leb, ◌==◌, if◌then◌else◌, get_or,
  set, take, drop, length,
}
use chan_extra.Sms.Cstring.{c_string, atoi}
use chan_extra.Sms.Submit.{strstr}
use chan_extra.Sms.Event.{
  SmsMode, sms_unknown, sms_pdu, sms_text, SmsReceived, Outcome, fault, failed, done, format_tz,
}

-- The text before the first `flag`, and that after it.
unfoldable pub split_at : List ℕ → ℕ → Option (List ℕ × List ℕ)
split_at [] flag = none
split_at (c ∷ text) flag =
    let rest = split_at text flag in
    if c == flag
    then some ([], text)
    else elim rest [ none ↦ none | some parts ↦ some (c ∷ parts.0, parts.1) ]

unfoldable pub unquoted : List ℕ → List ℕ
unquoted [] = []
unquoted (c ∷ text) = let rest = unquoted text in if c == b'"' then rest else c ∷ rest

-- What is written to `out` and what is returned.
unfoldable pub gsm_get_dot_string : List ℕ → ℕ → Option (List ℕ × List ℕ)
unfolding split_at unquoted
gsm_get_dot_string text flag =
    bind (split_at text flag)
      (λ parts. if leb 255 (length parts.0) then none else some (unquoted parts.0, parts.1))

-- What follows the text is read as NUL.
unfoldable pub gsm_check_sms_mode : List ℕ → SmsMode
unfolding gsm_get_dot_string strstr
gsm_check_sms_mode sms_info = elim (gsm_get_dot_string sms_info b':') [
  | none ↦ sms_unknown
  | some head ↦
      if not (strstr head.0 (b'+' ∷ b'C' ∷ b'M' ∷ b'T' ∷ []))
      then sms_unknown
      else elim (gsm_get_dot_string head.1 b',') [
        | none ↦ sms_unknown
        | some field ↦ if get_or field.1 1 0 == b'"' then sms_text else sms_pdu
      ]
]

-- The time and the time zone; the array of the first has 32 characters.
unfoldable pub text_time : List ℕ → List ℕ × List ℕ
unfolding split_at atoi format_tz
text_time date = elim (split_at date b'+') [
  | none ↦ (take 32 date, b'u' ∷ b'n' ∷ b'k' ∷ b'n' ∷ b'o' ∷ b'w' ∷ [])
  | some parts ↦ (take 32 parts.0, format_tz (atoi parts.1))
]

-- The event's text, of an array that holds `old`: the copy has no NUL of its own, and an end of
-- line at its end is replaced by one. `none` is an index before the array.
unfoldable pub text_body : List ℕ → List ℕ → Option (List ℕ)
unfolding c_string
text_body old body =
    let n = length body in
    let copied = body ++ drop n old in
    let no_cr = if get_or copied (n - 2) 0 == b'\r' then set copied (n - 2) 0 else copied in
    let no_lf = if get_or no_cr (n - 1) 0 == b'\n' then set no_cr (n - 1) 0 else no_cr in
    if ltb n 2 then none else some (c_string no_lf)

-- From the text after the date, with the event as it is by then.
unfoldable pub text_event : SmsReceived → List ℕ → Outcome
unfolding gsm_get_dot_string text_body
text_event ev text = elim (gsm_get_dot_string text b'\n') [
  | none ↦ failed ev
  | some rest ↦ elim (text_body ev.text rest.1) [
    | none ↦ fault
    | some body ↦ done (record ev { mode = sms_text; pdu = []; len = length body; text = body })
  ]
]

-- From the text after the sender: a name, and the date up to the end of the line.
unfoldable pub date_event : SmsReceived → List ℕ → Outcome
unfolding gsm_get_dot_string text_time text_event
date_event ev text =
    elim (bind (gsm_get_dot_string text b',') (λ name. gsm_get_dot_string name.1 b'\r')) [
      | none ↦ failed ev
      | some date ↦
          text_event (record ev { time = (text_time date.0).0; tz = (text_time date.0).1 }) date.1
    ]

unfoldable pub gsm_text2sm_event2 : SmsReceived → List ℕ → Outcome
unfolding gsm_get_dot_string date_event
gsm_text2sm_event2 ev sms_info =
    elim (bind (gsm_get_dot_string sms_info b':') (λ head. gsm_get_dot_string head.1 b',')) [
      | none ↦ failed ev
      | some sender ↦ date_event (record ev { sender = sender.0 }) sender.1
    ]
