-- ===== src/Gsm/Receive.antt =====
-- A line at a time: `module_receive` of src/libgsmat/gsm_module.c and `gsm_check_event` of
-- src/libgsmat/gsm.c.
pub mod Converse
pub mod Lines
pub mod Lost
pub mod Rounds
use chan_extra.Prelude.{
  ℕ, zero, suc, ◌+◌, ◌-◌, ◌*◌, ◌/◌, ◌%◌, ◌^◌, Bool, true, false, not, ◌&&◌, ◌||◌, Option, none,
  some, List, [], ◌∷◌, ◌++◌, ltb, leb, ◌==◌, if◌then◌else◌, take, drop, bind, length, set, get_or,
  replicate,
}
use chan_extra.Config.Commands.{at_busy, at_no_dialtone}
use chan_extra.Gsm.San.{Sanbuf, arrays_fit, blank, gsm_san, line, nothing, partial}
use chan_extra.Gsm.State.{
  ModuleState, gsm_state_manufacturer_req, gsm_state_ready, gsm_state_sms_sending, rank,
}
use chan_extra.Gsm.Call.{gsm_getcall}
use chan_extra.Gsm.Module.{Env, Gsm, Result, and_then, event, fault, more, quiet}
use chan_extra.Gsm.Start.{Return, crashed, gsm_set_switchtype, returned, says, spinning}
use chan_extra.Gsm.Network.{module_check_network}
use chan_extra.Gsm.Ussd.{module_check_ussd}
use chan_extra.Gsm.Sms.{is_end, module_check_sms}
use chan_extra.Gsm.Init.{init_line}
use chan_extra.Gsm.Talk.{call_of, lose_call, no_carrier, talk_line}

-- What a line leads to, where the next round is `k`.
unfoldable pub after_line : Result → (Gsm → Return) → Return
after_line fault k = crashed
after_line (event g) k = returned true g
after_line (quiet g) k = returned false g
after_line (more g buf) k = k g

module _ (env : Env) where
  -- What tells a module that is up that its call is lost.
  unfoldable pub check_lost : Gsm → List ℕ → Result
  check_lost g buf =
      if ltb (rank g.state) (rank gsm_state_ready)
      then more g buf
      else if no_carrier env g buf
      then lose_call g (some (call_of g).channelno) 19
      else if says env g buf at_no_dialtone
      then lose_call g none 38
      else if says env g buf at_busy
      then lose_call g (some (call_of g).channelno) 17
      else more g buf

  -- The switch: no state is in both halves.
  unfoldable pub on_state : Gsm → List ℕ → Result
  unfolding init_line talk_line and_then
  on_state g buf = and_then (init_line env g.state g buf) (λ h text. talk_line env g.state h text)

  -- One round of the loop, for the line of number `i`, from 1.
  unfoldable pub receive_line : ℕ → Gsm → List ℕ → Result
  unfolding on_state check_lost module_check_sms module_check_network module_check_ussd and_then
  receive_line i g buf = and_then (on_state g buf) (λ g1 buf1.
      and_then (check_lost g1 buf1) (λ g2 buf2.
        and_then (module_check_sms env g2 buf2 i) (λ g3 buf3.
          and_then (module_check_network env g3 buf3 i)
            (λ g4 buf4. module_check_ussd env g4 buf4))))

  -- The loop, with `f` rounds left, after `i` lines, on the rest of the input. A round leaves
  -- `sanbuf` alone.
  unfoldable pub receive_loop : ℕ → ℕ → Gsm → List ℕ → Return
  unfolding arrays_fit
  receive_loop zero i g input = spinning
  receive_loop (suc f) i g input =
      let (result, san) = gsm_san g.at_last_recv g.san input in
      let san' : Sanbuf = record san { idx = 0 } in
      let go : List ℕ → List ℕ → Return = λ buf next.
        after_line (receive_line (i + 1) (record g { san = san' }) buf)
          (λ h. receive_loop f (i + 1) (record h { san = san' }) next) in
      elim (arrays_fit g.san input result) [
        | false ↦ crashed
        | true ↦ elim result [
          | nothing ↦ returned false (record g { san = san })
          | partial buf ↦ returned false (record g { san = san })
          | line buf ↦ go buf (take san.idx san.text)
          | blank ↦ go [] []
        ]
      ]

  unfoldable pub module_receive : ℕ → Gsm → List ℕ → Return
  unfolding receive_loop gsm_getcall
  module_receive f g data_in =
      receive_loop f 0 (record g { pool = gsm_getcall g.pool g.pool.cref }) data_in

  unfoldable pub is_sending : ModuleState → Bool
  unfolding rank
  is_sending state = rank state == rank gsm_state_sms_sending

  -- Whether what has been received is handed on: it ends a line, or it is the prompt for a
  -- message. `none` is a read before the array.
  unfoldable pub is_complete : Gsm → Option Bool
  unfolding is_end is_sending
  is_complete g =
      let n = length g.at_last_recv in
      if is_end (get_or g.at_last_recv (n - 1) 0)
      then some true
      else if not (is_sending g.state)
      then some false
      else if ltb n 2
      then none
      else some (get_or g.at_last_recv (n - 2) 0 == b'>')

  -- What is left when the text has been handed on.
  unfoldable pub handed_on : Return → Return
  handed_on spinning = spinning
  handed_on crashed = crashed
  handed_on (returned e g) = returned e (record g { at_last_recv = [] })

  -- The read function has given `input`; a text that does not fit `at_last_recv` is written past
  -- its end. The rounds given to the loops are one more
  -- than the octets there are, with those that `sanbuf` still has.
  unfoldable pub gsm_check_event : Gsm → List ℕ → Return
  unfolding is_complete gsm_set_switchtype module_receive handed_on rank
  gsm_check_event g input =
      let text = g.at_last_recv ++ input in
      let g' : Gsm = record g { at_last_recv = text; at_pre_recv = take 1024 text } in
      let f = g.san.idx + length text + 1 in
      if length input == 0
      then returned false g
      else if ltb 1024 (length text)
      then crashed
      else elim (is_complete g') [
        | none ↦ crashed
        | some complete ↦
            if not complete
            then returned false g'
            else if ltb (rank g.state) (rank gsm_state_manufacturer_req)
            then handed_on (gsm_set_switchtype env f g' text)
            else handed_on (module_receive f g' text)
      ]
