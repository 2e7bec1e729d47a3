-- ===== src/Gsm/Init/Dialogue.antt =====
-- The dialogue that brings a module up, from the question for its manufacturer on, through
-- `gsm_check_event` of src/libgsmat/gsm.c, with the commands as they are by default.
use chan_extra.Prelude.{
  ℕ, zero, suc, ◌∙◌, ◌≡◌, refl, ap, true, false, List, [], ◌∷◌, ◌++◌, append-nil, append_assoc, sym,
  replicate, map,
}
use chan_extra.Config.Commands.{
  AtId, at_ask_net, at_ask_net_name, at_ask_pin, at_clip_enabled, at_dtr_wakeup, at_get_imei,
  at_get_manufacturer, at_get_smsc, at_get_version, at_gsm, at_imsi, at_moc_enabled, at_mode,
  at_net_name, at_net_ok, at_rssi_enabled, at_set_net_urc, at_set_side_tone, at_sms_set_charset,
}
use chan_extra.Config.File.{default_value}
use chan_extra.Gsm.State.{
  ModuleState, gsm_event_dchan_up, gsm_state_manufacturer_req, gsm_state_net_name_req,
  gsm_state_net_req, gsm_state_ready,
}
use chan_extra.Gsm.San.{arrays_fit, cr_of, gsm_san, out_text, san_add, san_rest, skip_of}
use chan_extra.Gsm.Module.{Env, Gsm, simple}
use chan_extra.Gsm.Start.{returned}
use chan_extra.Gsm.Talk.{lose_call, no_carrier}
use chan_extra.Gsm.Receive.{after_line, check_lost, gsm_check_event, receive_line}
use chan_extra.Gsm.Receive.Converse.{converse, goes_on, module_of}
use chan_extra.Gsm.Init.Exchange.{
  AllLead, Exchange, Leads, all_sent, first_answers, last_answers, last_command, last_state,
  net_named, searching, sent_text, texts, waits_for,
}

first_answers-lead :
    (env : Env)
    → AllLead
        (record env { cfgs = []; accepts = λ text. true })
        gsm_state_manufacturer_req
        at_get_manufacturer
        first_answers
unfolding waits_for gsm_check_event gsm_san san_add skip_of cr_of san_rest check_lost default_value
    no_carrier lose_call after_line receive_line arrays_fit out_text
first_answers-lead env = (
  (λ g. (refl, refl)),
  (
    (λ g. (refl, refl)),
    (
      (λ g. (refl, refl)),
      (
        (λ g. (refl, refl)),
        (
          (λ g. (refl, refl)),
          (
            (λ g. (refl, refl)),
            (
              (λ g. (refl, refl)),
              (
                (λ g. (refl, refl)),
                ((λ g. (refl, refl)), ((λ g. (refl, refl)), ((λ g. (refl, refl)), tt))),
              ),
            ),
          ),
        ),
      ),
    ),
  ),
)

searching-Leads :
    (env : Env)
    → Leads
        (record env { cfgs = []; accepts = λ text. true })
        gsm_state_net_req
        at_ask_net
        searching
unfolding waits_for gsm_check_event gsm_san san_add skip_of cr_of san_rest check_lost default_value
    no_carrier lose_call after_line receive_line arrays_fit out_text
searching-Leads env g = (refl, sym (append-nil g.sent))

last_answers-lead :
    (env : Env)
    → AllLead
        (record env { cfgs = []; accepts = λ text. true })
        gsm_state_net_req
        at_ask_net
        last_answers
unfolding waits_for gsm_check_event gsm_san san_add skip_of cr_of san_rest check_lost default_value
    no_carrier lose_call after_line receive_line arrays_fit out_text
last_answers-lead env = (
  (λ g. (refl, refl)),
  (
    (λ g. (refl, refl)),
    ((λ g. (refl, refl)), ((λ g. (refl, refl)), ((λ g. (refl, refl)), ((λ g. (refl, refl)), tt)))),
  ),
)

-- The name of the network is the last answer, after which the module is ready.
net_named-ends :
    (env : Env) (g : Gsm)
    → let env' : Env = record env { cfgs = []; accepts = λ text. true } in
      let r = gsm_check_event env' (waits_for gsm_state_net_name_req at_ask_net_name g) net_named in
      (r ≡ returned true (module_of g r))
      × ((module_of g r).state ≡ gsm_state_ready)
      × ((module_of g r).ev ≡ simple gsm_event_dchan_up)
      × ((module_of g r).sent ≡ g.sent ++ (sent_text at_net_name ∷ []))
unfolding waits_for gsm_check_event gsm_san san_add skip_of cr_of san_rest check_lost default_value
    no_carrier lose_call after_line receive_line arrays_fit out_text
net_named-ends env g = (refl, refl, refl, refl)

-- What comes in before other texts leads the module there, with all of it sent.
converse-lead :
    (env : Env) (state : ModuleState) (asked : AtId) (xs : List Exchange) (rest : List (List ℕ))
    → AllLead env state asked xs
    → (g : Gsm)
    → (h : Gsm) × (converse env (waits_for state asked g) (texts xs ++ rest)
        ≡ converse env (waits_for (last_state state xs) (last_command asked xs) h) rest)
      × (h.sent ≡ g.sent ++ all_sent xs)
unfolding converse
converse-lead env state asked [] rest lead g = (g, refl, sym (append-nil g.sent))
converse-lead env state asked (x ∷ xs) rest lead g =
    let (e, sent) = lead.0 g in
    let after = module_of g (gsm_check_event env (waits_for state asked g) x.text) in
    let (h, e', sent') = converse-lead env x.next x.command xs rest lead.1 after in
    (
      h,
      ap (λ r. goes_on r (λ k. converse env k (texts xs ++ rest))) e ∙ e',
      sent' ∙ ap (λ l. l ++ all_sent xs) sent ∙ append_assoc g.sent x.sends (all_sent xs),
    )

converse-searching :
    (env : Env) (n : ℕ) (rest : List (List ℕ))
    → Leads env gsm_state_net_req at_ask_net searching
    → (g : Gsm)
    → (h : Gsm) × (converse env
          (waits_for gsm_state_net_req at_ask_net g)
          (replicate n searching.text ++ rest)
        ≡ converse env (waits_for gsm_state_net_req at_ask_net h) rest)
      × (h.sent ≡ g.sent)
unfolding converse
converse-searching env zero rest lead g = (g, refl, refl)
converse-searching env (suc n) rest lead g =
    let (e, sent) = lead g in
    let after =
      module_of g (gsm_check_event env (waits_for gsm_state_net_req at_ask_net g) searching.text) in
    let (h, e', sent') = converse-searching env n rest lead after in
    (
      h,
      ap (λ r. goes_on r (λ k. converse env k (replicate n searching.text ++ rest))) e ∙ e',
      sent' ∙ sent ∙ append-nil g.sent,
    )

-- The commands from the question for the version on, as they are sent.
abbrev pub commands : List (List ℕ)
commands = map sent_text (
    at_get_version ∷ at_get_imei ∷ at_ask_pin ∷ at_imsi ∷ at_moc_enabled ∷ at_set_side_tone
    ∷ at_clip_enabled ∷ at_dtr_wakeup ∷ at_rssi_enabled ∷ at_set_net_urc ∷ at_ask_net ∷ at_net_ok
    ∷ at_get_smsc ∷ at_sms_set_charset ∷ at_mode ∷ at_gsm ∷ at_ask_net_name ∷ at_net_name ∷ [])

-- A module that waits for the answer to the question for its manufacturer, with no level to set, its
-- multiplexer already running, no timer set, not resetting, nothing received yet and the end of a line
-- in `sanbuf`, comes up, where no file changes a command and all that is sent is taken, on these
-- answers: those of `first_answers`, with the SIM ready and no PIN asked for, then any number of times
-- that it searches for a network, then those of `last_answers`, with the home network, and at last the
-- name of the network. No text leads to an event before the last one; the library has then sent all the
-- commands of the dialogue, in order and once each, and no other, the module is ready, and the event is
-- that of a channel that is up.
pub gsm_check_event-comes_up :
    (env : Env) (g : Gsm) (n : ℕ)
    → let env' : Env = record env { cfgs = []; accepts = λ text. true } in
      let input =
        texts first_answers
        ++ (replicate n searching.text ++ (texts last_answers ++ (net_named ∷ []))) in
      (h : Gsm) × (converse env' (waits_for gsm_state_manufacturer_req at_get_manufacturer g) input
        ≡ returned true h)
      × (h.state ≡ gsm_state_ready)
      × (h.ev ≡ simple gsm_event_dchan_up)
      × (h.sent ≡ g.sent ++ commands)
unfolding converse
gsm_check_event-comes_up env g n =
    let env' : Env = record env { cfgs = []; accepts = λ text. true } in
    let rest = texts last_answers ++ (net_named ∷ []) in
    let (h1, e1, sent1) =
      converse-lead env' gsm_state_manufacturer_req at_get_manufacturer first_answers
        (replicate n searching.text ++ rest) (first_answers-lead env) g in
    let (h2, e2, sent2) = converse-searching env' n rest (searching-Leads env) h1 in
    let (h3, e3, sent3) =
      converse-lead env' gsm_state_net_req at_ask_net last_answers (net_named ∷ [])
        (last_answers-lead env) h2 in
    let (e4, ready, up, sent4) = net_named-ends env h3 in
    let last_module =
      module_of h3
        (gsm_check_event env' (waits_for gsm_state_net_name_req at_ask_net_name h3) net_named) in
    (
      last_module,
      e1 ∙ e2 ∙ e3 ∙ ap (λ r. goes_on r (λ k. returned false k)) e4,
      ready,
      up,
      sent4
          ∙ ap (λ l. l ++ (sent_text at_net_name ∷ []))
              (sent3 ∙ ap (λ l. l ++ all_sent last_answers) (sent2 ∙ sent1))
          ∙ ap (λ l. l ++ (sent_text at_net_name ∷ []))
              (append_assoc g.sent (all_sent first_answers) (all_sent last_answers))
          ∙ append_assoc g.sent (all_sent first_answers ++ all_sent last_answers)
              (sent_text at_net_name ∷ []),
    )
