-- ===== src/Gsm/Reset.antt =====
-- Starting a module again: `gsm_restart`, `gsm_reset` and the callbacks of their timers, and the
-- setters of a request for a call, of src/libgsmat/gsm.c.
use chan_extra.Prelude.{
  u8, ℕ, ◌^◌, ◌-◌, Bool, true, false, Option, none, some, List, [], ◌==◌, if◌then◌else◌, set,
}
use chan_extra.Sched.{gsm_schedule_event}
use chan_extra.Config.Commands.{at_atz}
use chan_extra.Gsm.State.{at_call_state_restart, at_call_state_restart_request, gsm_state_up}
use chan_extra.Gsm.Call.{AtCall, GsmSr, gsm_getcall, update_call}
use chan_extra.Gsm.Module.{Env, Gsm, at, gsm_switch_state, module_restart, module_start}
use chan_extra.Gsm.Network.{minus_one, net_unregistered}

-- The number of the callback `gsm_reset_timeout`.
abbrev reset_timeout : ℕ
reset_timeout = 5

-- The call of a reset.
unfoldable pub reset_call : ℕ → AtCall → AtCall
reset_call channel c = record c {
  channelno = some (u8 channel);
  preferred = false;
  exclusive = true;
  ourcallstate = at_call_state_restart;
  peercallstate = at_call_state_restart_request;
}

module _ (env : Env) where
  unfoldable pub gsm_restart : Gsm → Gsm
  unfolding module_start
  gsm_restart g = module_start env (record g {
    network = net_unregistered;
    imei = [];
    imsi = [];
    net_name = set g.net_name 0 0;
    coverage = minus_one;
  })

  -- The module is started again, now and after the time of GSM_TIMER_T316, for the call of
  -- reference `cr`. The timer's id is -1 for a full table.
  unfoldable pub gsm_reset_timeout : Gsm → ℕ → Gsm
  unfolding gsm_schedule_event module_restart
  gsm_reset_timeout g cr =
      let (sched, id) = gsm_schedule_event g.pool.sched env.clock env.t316 reset_timeout cr in
      module_restart env (record g {
        pool = record g.pool {
          sched = sched;
          retranstimer = elim id [ none ↦ 2 ^ 32 - 1 | some i ↦ i ];
        };
      })

  -- The boolean is `true` for the return of 0. The call of reference 0 is there after the return
  -- of -1 as well.
  unfoldable pub gsm_reset : Gsm → ℕ → Gsm × Bool
  unfolding gsm_getcall update_call reset_call gsm_reset_timeout
  gsm_reset g channel =
      let p = gsm_getcall g.pool 0 in
      if channel == 0
      then (record g { pool = p }, false)
      else (gsm_reset_timeout (record g { pool = update_call p 0 (reset_call channel) }) 0, true)

  -- The argument is the call, which is not looked at.
  unfoldable pub gsm_start_timeout : Gsm → Gsm
  unfolding gsm_switch_state at
  gsm_start_timeout g =
      gsm_switch_state env (record g { resetting = false }) gsm_state_up (at env g at_atz)

-- The third argument of the function, `nonisdn`, is not read anywhere.
unfoldable pub gsm_sr_set_channel : GsmSr → ℕ → Bool → GsmSr
gsm_sr_set_channel sr channel exclusive = record sr {
  channel = channel;
  exclusive_channel = exclusive;
}

unfoldable pub gsm_sr_set_called : GsmSr → Option (List ℕ) → ℕ → GsmSr
gsm_sr_set_called sr called numcomplete = record sr { called = called; numcomplete = numcomplete }

unfoldable pub gsm_sr_set_caller : GsmSr → Option (List ℕ) → Option (List ℕ) → GsmSr
gsm_sr_set_caller sr caller callername = record sr { caller = caller; sr_callername = callername }
