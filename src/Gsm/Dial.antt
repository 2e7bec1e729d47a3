-- ===== src/Gsm/Dial.antt =====
-- The calls that write to the module: `gsm_answer`, `gsm_setup`, `gsm_call` and `gsm_hangup` of
-- src/libgsmat/gsm.c.
use chan_extra.Prelude.{ℕ, Bool, true, false, List, Option, none, some, ◌==◌, if◌then◌else◌, bind}
use chan_extra.Gsm.State.{CallState, at_call_state_null}
use chan_extra.Gsm.Call.{
  AtCall, GsmSr, answered, destroys, dialled, disconnects, find_call, gsm_call_destroy,
  gsm_call_disconnect, hangup_step, ignores, reports, setup_call, stop_timer, update_call,
}
use chan_extra.Gsm.Module.{Env, Gsm, module_answer, module_dial, module_hangup}

-- What `gsm_hangup` comes to: `freed` reads the call's state after the call has been freed,
-- `bad_timer` deletes a timer that is not in the table, `not_hung` is the return of -1.
pub data Hangup : Type 0 where
  bad_timer : Hangup
  freed not_hung hung : Gsm → Hangup

module _ (env : Env) where
  -- The timer is not there any more, whatever became of it.
  unfoldable pub gsm_answer : Gsm → ℕ → ℕ → Option Gsm
  unfolding update_call answered stop_timer module_answer
  gsm_answer g cr channel =
      bind (stop_timer (update_call g.pool cr (answered channel)))
        (λ p. some (module_answer env (record g { pool = record p { retranstimer = 0 } })))

  -- `none` is undefined; the boolean is `true` for the return of 0.
  unfoldable pub gsm_setup : Gsm → ℕ → GsmSr → Option (Gsm × Bool)
  unfolding update_call setup_call dialled module_dial
  gsm_setup g cr req =
      let g' : Gsm = record g { pool = update_call g.pool cr (setup_call req) } in
      elim req.called [
        | none ↦ some (g', false)
        | some callednum ↦
            bind (module_dial env g' callednum)
              (λ h. some (record h { pool = update_call h.pool cr dialled }, true))
      ]

  -- `gsm_call`; what it is given besides is not read anywhere.
  unfoldable pub gsm_call :
      Gsm
      → ℕ
      → ℕ
      → Bool
      → Option (List ℕ)
      → Option (List ℕ)
      → Option (List ℕ)
      → ℕ
      → Option (Gsm × Bool)
  unfolding gsm_setup
  gsm_call g cr channel exclusive caller callername called ulayer1 = gsm_setup g cr (record {
    channel = channel;
    exclusive_channel = exclusive;
    caller = caller;
    sr_callername = callername;
    called = called;
    sr_userl1 = ulayer1;
    numcomplete = 0;
  })

  -- `none` is a cause of -1.
  unfoldable pub cause_of : AtCall → Option ℕ → ℕ
  cause_of c cause = if c.cause == 96 then 96 else elim cause [ none ↦ 16 | some n ↦ n ]

  unfoldable pub is_null : CallState → Bool
  is_null at_call_state_null = true
  is_null other = false

  -- The call of the reference `cr`; a reference of no call stands for NULL.
  unfoldable pub gsm_hangup : Gsm → ℕ → Option ℕ → Hangup
  unfolding find_call hangup_step gsm_call_destroy gsm_call_disconnect cause_of is_null
      module_hangup
  gsm_hangup g cr cause = elim (find_call g.pool.callpool cr) [
    | none ↦ not_hung g
    | some c ↦ elim (hangup_step c.ourcallstate c.peercallstate) [
      | destroys ↦ elim (gsm_call_destroy g.pool c.cr) [
        | none ↦ bad_timer
        | some p ↦ freed (record g { pool = p })
      ]
      | disconnects ↦ elim (gsm_call_disconnect g.pool c (cause_of c cause)) [
        | none ↦ bad_timer
        | some p ↦ hung (module_hangup env (record g { pool = p }))
      ]
      | reports ↦ not_hung g
      | ignores ↦ if is_null c.ourcallstate then hung g else hung (module_hangup env g)
    ]
  ]
