-- ===== src/Gsm/Ussd.antt =====
-- Supplementary services: `parse_ussd_code` and `module_check_ussd` of src/libgsmat/gsm_module.c.
use chan_extra.Prelude.{
  u8, ℕ, not, ◌||◌, Option, none, some, List, [], ◌==◌, if◌then◌else◌, take, drop, bind,
}
use chan_extra.Config.Commands.{at_check_ussd, at_cme_error, at_cms_error, at_no_carrier, codes}
use chan_extra.Sms.Cstring.{atoi}
use chan_extra.Gsm.Text.{gsm_compare, strchr, strrchr}
use chan_extra.Gsm.State.{gsm_event_ussd_send_failed, gsm_state_ready, gsm_state_ussd_sending, rank}
use chan_extra.Gsm.Module.{Env, Event, Gsm, Result, event, more, simple, ussd_received}
use chan_extra.Gsm.Start.{says}
use chan_extra.Gsm.Network.{minus_one}

-- The text after the colon, and after the first space that follows it.
unfoldable pub ussd_body : List ℕ → Option (List ℕ)
unfolding strchr
ussd_body code = elim (strchr code b':') [
  | none ↦ none
  | some found ↦ elim (strchr found.1 b' ') [ none ↦ some found.1 | some space ↦ some space.1 ]
]

-- The number that follows a comma after the last quote.
unfoldable pub ussd_coding : List ℕ → ℕ
unfolding strchr atoi
ussd_coding text = elim (strchr text b',') [ none ↦ 0 | some found ↦ atoi found.1 ]

-- `none` is the return of -1 before the event is complete; else the number that it returns, as a
-- bit pattern, and the event. The texts fit `buf` and the event's.
unfoldable pub parse_ussd_code : List ℕ → Option (ℕ × Event)
unfolding ussd_body ussd_coding gsm_compare strchr strrchr atoi
parse_ussd_code code = bind (ussd_body code) (λ body.
    if not (gsm_compare body (codes ",\""))
    then none
    else bind (strchr body b'"') (λ start. bind (strrchr start.1 b'"') (λ end. some (
      atoi body,
      ussd_received (u8 (atoi body)) (take end start.1) (u8 (ussd_coding (drop end start.1))),
    ))))

module _ (env : Env) where
  -- The request is over, with an event.
  unfoldable pub ussd_over : Gsm → Event → Result
  ussd_over g ev = event (record g { ussd_info = none; state = gsm_state_ready; ev = ev })

  unfoldable pub module_check_ussd : Gsm → List ℕ → Result
  unfolding parse_ussd_code ussd_over says rank
  module_check_ussd g buf =
      let seen : Gsm = record g { at_last_recv = []; at_pre_recv = [] } in
      let failed = simple gsm_event_ussd_send_failed in
      if not (rank g.state == rank gsm_state_ussd_sending)
      then more g buf
      else if says env g buf at_check_ussd
      then elim (parse_ussd_code buf) [
        | none ↦ ussd_over seen failed
        | some parsed ↦ ussd_over seen (if parsed.0 == minus_one then failed else parsed.1)
      ]
      else if says env g buf at_cms_error
          || (says env g buf at_no_carrier || says env g buf at_cme_error)
      then ussd_over g failed
      else more g buf
