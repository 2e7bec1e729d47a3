-- ===== src/Gsm/Network.antt =====
-- What a module says of its network: `module_get_coverage` and `module_check_network` of
-- src/libgsmat/gsm_module.c, and `get_coverage` of src/libgsmat/gsm_config.c.
use chan_extra.Prelude.{
  ℕ, ◌-◌, ◌^◌, Bool, not, ◌&&◌, ◌||◌, Option, none, some, List, leb, ◌==◌, if◌then◌else◌, bind, set,
}
use chan_extra.Config.Commands.{
  AtId, at_ask_net, at_check_signal1, at_check_signal2, at_creg, at_creg0, at_creg1, at_creg2,
  at_creg3, at_creg4, at_creg5, at_get_signal1, at_get_signal2, at_net_ok, at_ok, codes,
}
use chan_extra.Config.Template.{
  replaced, str_check_symbol, str_replace, text_eq, unchanged, undefined,
}
use chan_extra.Gsm.Text.{trim_crlf}
use chan_extra.Gsm.State.{
  gsm_event_dchan_down, gsm_event_dchan_up, gsm_event_no_signal, gsm_state_net_ok,
  gsm_state_net_req, gsm_state_ready, rank,
}
use chan_extra.Gsm.Module.{Env, Gsm, Result, at, event, fault, gsm_switch_state, more, simple}
use chan_extra.Gsm.Start.{says}

-- -1 as a bit pattern.
abbrev pub minus_one : ℕ
minus_one = 2 ^ 32 - 1

-- `GSM_NET_UNREGISTERED` and those after it.
abbrev pub net_unregistered : ℕ
net_unregistered = 0

abbrev pub net_home : ℕ
net_home = 1

abbrev pub net_searching : ℕ
net_searching = 2

abbrev pub net_denied : ℕ
net_denied = 3

abbrev pub net_unknown : ℕ
net_unknown = 4

abbrev pub net_roaming : ℕ
net_roaming = 5

module _ (env : Env) where
  -- On the template of the command. `none` is undefined.
  unfoldable pub get_coverage : List ℕ → List ℕ → Option ℕ
  unfolding str_check_symbol str_replace
  get_coverage template h = elim (str_check_symbol template 1024) [
    | none ↦ none
    | some buf ↦ elim (str_replace buf 1024 (codes "$COVERAGE") (codes "%d")) [
      | unchanged ↦ some minus_one
      | undefined ↦ none
      | replaced buf' ↦ elim (str_replace buf' 1024 (codes "$BER") (codes "%d")) [
        | unchanged ↦ some minus_one
        | undefined ↦ none
        | replaced format ↦ some (env.scan_number format h)
      ]
    ]
  ]

  unfoldable pub module_get_coverage : Gsm → List ℕ → Option Gsm
  unfolding get_coverage says at
  module_get_coverage g h =
      let coverage : Option ℕ =
        if says env g h at_check_signal1
        then get_coverage (at env g at_get_signal1) h
        else if says env g h at_check_signal2
        then get_coverage (at env g at_get_signal2) h
        else some minus_one in
      bind coverage
        (λ c. some (record g { coverage = if not (c == 0) && not (c == 99) then c else minus_one }))

  -- `coverage < 1`.
  unfoldable pub no_coverage : Gsm → Bool
  no_coverage g = g.coverage == 0 || leb (2 ^ 31) g.coverage

  -- The network is gone: it is asked for again.
  unfoldable pub network_down : Gsm → ℕ → Result
  unfolding gsm_switch_state at
  network_down g network = event (
      gsm_switch_state env
        (record g {
          network = network;
          ev = simple gsm_event_dchan_down;
          coverage = minus_one;
          net_name = set g.net_name 0 0;
        })
        gsm_state_net_req (at env g at_ask_net))

  -- The network is there, in the state `gsm_state_net_req` or ready.
  unfoldable pub network_up : Gsm → ℕ → List ℕ → Result
  unfolding gsm_switch_state at rank
  network_up g network buf =
      if rank g.state == rank gsm_state_net_req
      then more (gsm_switch_state env g gsm_state_net_ok (at env g at_net_ok)) buf
      else event (record g { network = network; ev = simple gsm_event_dchan_up })

  -- On a line with the word of `at_creg`.
  unfoldable pub on_creg : Gsm → List ℕ → Result
  unfolding text_eq trim_crlf network_down network_up at
  on_creg g line =
      let buf = trim_crlf line in
      let is = λ (id : AtId). text_eq buf (at env g id) in
      if is at_creg0
      then network_down g net_unregistered
      else if is at_creg1
      then network_up g net_home buf
      else if is at_creg2
      then network_down g net_searching
      else if is at_creg3
      then network_down g net_denied
      else if is at_creg4
      then network_down g net_unknown
      else if is at_creg5
      then network_up g net_roaming buf
      else more g buf

  -- The argument `i` is the number of the line, from 1.
  unfoldable pub module_check_network : Gsm → List ℕ → ℕ → Result
  unfolding module_get_coverage no_coverage on_creg says rank
  module_check_network g buf i =
      let signal =
        (i == 2 && says env g g.at_last_recv at_check_signal1)
        || (i == 1 && says env g g.at_pre_recv at_check_signal1) in
      if not (rank g.state == rank gsm_state_ready) && not (rank g.state == rank gsm_state_net_req)
      then more g buf
      else if says env g buf at_check_signal1
      then elim (module_get_coverage g buf) [ none ↦ fault | some h ↦ more h buf ]
      else if says env g buf at_creg
      then on_creg g buf
      else if says env g buf at_ok
      then (if signal
          then event (record g {
            ev = simple (if no_coverage g then gsm_event_dchan_down else gsm_event_dchan_up);
          })
          else more g buf)
      else if says env g buf at_check_signal2
      then elim (module_get_coverage g buf) [
        | none ↦ fault
        | some h ↦ event (record h {
          ev = simple (if no_coverage h then gsm_event_no_signal else gsm_event_dchan_up);
        })
      ]
      else more g buf
