-- ===== src/Gsm/Receive/Lost.antt =====
-- A call that is lost: it is freed and the module is ready, except where the call is active.
use chan_extra.Prelude.{
  ℕ, ◌≤◌, ◌≡◌, refl, ap, inl, inr, Bool, true, false, ◌||◌, Bool-cases, Option-cases, Option, none,
  some, List, [], ◌∷◌, ◌++◌, ◌==◌, ltb, bind, arith,
}
use chan_extra.Config.Commands.{at_busy, at_net_name, at_no_dialtone}
use chan_extra.Gsm.State.{
  ModuleState, gsm_event_hangup, gsm_state_call_active, gsm_state_ready, rank,
}
use chan_extra.Gsm.Call.{
  AtCall, Pool, destroy_list, find_call, gsm_call_destroy, hangup_step, stop_timer, update_call,
  update_list,
}
use chan_extra.Gsm.Call.Distinct.{IsDistinct, find_call-destroy_list, update_list-IsDistinct}
use chan_extra.Gsm.Module.{
  Env, Gsm, and_then, at, event, event_id, fault, gsm_switch_state, hangup, more,
}
use chan_extra.Gsm.Start.{says}
use chan_extra.Gsm.Dial.{gsm_hangup}
use chan_extra.Gsm.Init.{init_line}
use chan_extra.Gsm.Talk.{
  call_of, ended_call, hangup_result, lose_call, no_carrier, on_call_active, over, talk_line,
  with_call,
}
use chan_extra.Gsm.Receive.{check_lost, on_state, receive_line}

find_call-update_list :
    (calls : List AtCall) (cr : ℕ) (f : AtCall → AtCall) (c : AtCall)
    → ((d : AtCall) → (f d).cr ≡ d.cr)
    → find_call calls cr ≡ some c
    → find_call (update_list calls cr f) cr ≡ some (f c)
unfolding find_call update_list
find_call-update_list [] cr f c keeps e = absurd (ground arith)
find_call-update_list (d ∷ calls) cr f c keeps e = elim (Bool-cases (d.cr == cr)) [
  | inl here ↦
      let e' = rw here at e in
      let here' : ((f d).cr == cr) ≡ true = rw (keeps d) here in
      rw (here, here') (ap (λ o. bind o (λ x. some (f x))) e')
  | inr there ↦ rw (there, there) (find_call-update_list calls cr f c keeps (rw there at e))
]

-- A call whose two states are null is freed, and its state is read after that, unless its timer
-- cannot be stopped.
gsm_hangup-over :
    (env : Env) (g : Gsm) (cr : ℕ) (c : AtCall) (cause : Option ℕ)
    → find_call g.pool.callpool cr ≡ some (over c)
    → hangup_result (gsm_hangup env g cr cause) ≡ fault
unfolding gsm_hangup over hangup_step hangup_result
gsm_hangup-over env g cr c cause e = elim (Option-cases (gsm_call_destroy g.pool c.cr)) [
  | inl none_left ↦ rw (gsm_hangup, e, none_left) refl
  | inr (p, left) ↦ rw (gsm_hangup, e, left) refl
]

switch_state-pool :
    (env : Env) (g : Gsm) (state : ModuleState) (text : List ℕ)
    → (gsm_switch_state env g state text).pool ≡ g.pool
unfolding gsm_switch_state
switch_state-pool env g state text =
    elim (Bool-cases (env.accepts (text ++ (b'\r' ∷ b'\n' ∷ [])))) [
      | inl e ↦ rw (gsm_switch_state, e) refl
      | inr e ↦ rw (gsm_switch_state, e) refl
    ]

ended_call-find :
    (env : Env) (g : Gsm) (c : AtCall)
    → find_call g.pool.callpool g.pool.cref ≡ some c
    → find_call (ended_call env g).pool.callpool g.pool.cref ≡ some (over c)
unfolding ended_call over
ended_call-find env g c found =
    rw (switch_state-pool env g gsm_state_ready (at env g at_net_name))
      (find_call-update_list g.pool.callpool g.pool.cref over c (λ d. refl) found)

-- An active call that the other end has ended is freed, and then read: a line with the words for
-- that is a fault of the memory, however the rest of the module stands, for a module that has the
-- call looked up.
pub receive_line-call_active :
    (env : Env) (i : ℕ) (g : Gsm) (buf : List ℕ) (c : AtCall)
    → find_call g.pool.callpool g.pool.cref ≡ some c
    → no_carrier env (record g { state = gsm_state_call_active }) buf ≡ true
    → receive_line env i (record g { state = gsm_state_call_active }) buf ≡ fault
unfolding receive_line on_state init_line talk_line on_call_active and_then
receive_line-call_active env i g buf c found lost =
    let active : Gsm = record g { state = gsm_state_call_active } in
    rw
      (
        lost,
        gsm_hangup-over env (ended_call env active) g.pool.cref c (some 16)
            (ended_call-find env active c found),
      )
      refl

-- The words that tell that a call is lost.
unfoldable pub tells_lost : Env → Gsm → List ℕ → Bool
unfolding no_carrier says
tells_lost env g buf =
    no_carrier env g buf || (says env g buf at_no_dialtone || says env g buf at_busy)

destroy-lost :
    (p : Pool) (cr : ℕ)
    → IsDistinct p.callpool
    → p.retranstimer ≡ 0
    → (q : Pool) × (gsm_call_destroy p cr ≡ some q) × (find_call q.callpool cr ≡ none)
unfolding gsm_call_destroy stop_timer
destroy-lost p cr distinct idle = elim (Option-cases (find_call p.callpool cr)) [
  | inl e ↦ (p, rw (gsm_call_destroy, e) refl, e)
  | inr (c, e) ↦
      let none_set : (p.retranstimer == 0) ≡ true = ground arith in
      (
        record p { callpool = destroy_list p.callpool cr },
        rw (gsm_call_destroy, e, stop_timer, none_set) refl,
        find_call-destroy_list cr p.callpool distinct,
      )
]

-- A call that is lost is not found any more, and the module is ready, with the event of a hangup.
lose_call-freed :
    (g : Gsm) (channel : Option (Option ℕ)) (cause : ℕ)
    → IsDistinct g.pool.callpool
    → g.pool.retranstimer ≡ 0
    → (h : Gsm) × (lose_call g channel cause ≡ event h)
      × (h.state ≡ gsm_state_ready)
      × (event_id h.ev ≡ gsm_event_hangup)
      × (find_call h.pool.callpool g.pool.cref ≡ none)
unfolding lose_call event_id with_call
lose_call-freed g channel cause distinct idle =
    let distinct' = update_list-IsDistinct g.pool.cref over (λ c. refl) g.pool.callpool distinct in
    let (q, e, gone) =
      destroy-lost (update_call g.pool g.pool.cref over) g.pool.cref distinct' idle in
    (
      record g { pool = q; state = gsm_state_ready; ev = hangup channel cause g.pool.cref },
      rw (lose_call, e) refl,
      refl,
      refl,
      gone,
    )

check_lost-freed :
    (env : Env) (g : Gsm) (buf : List ℕ)
    → rank gsm_state_ready ≤ rank g.state
    → tells_lost env g buf ≡ true
    → IsDistinct g.pool.callpool
    → g.pool.retranstimer ≡ 0
    → (h : Gsm) × (check_lost env g buf ≡ event h)
      × (h.state ≡ gsm_state_ready)
      × (event_id h.ev ≡ gsm_event_hangup)
      × (find_call h.pool.callpool g.pool.cref ≡ none)
unfolding check_lost tells_lost
check_lost-freed env g buf up lost distinct idle =
    let not_below : ltb (rank g.state) (rank gsm_state_ready) ≡ false = ground arith in
    elim (Bool-cases (no_carrier env g buf)) [
      | inl e ↦ rw (not_below, e) (lose_call-freed g (some (call_of g).channelno) 19 distinct idle)
      | inr e ↦ elim (Bool-cases (says env g buf at_no_dialtone)) [
        | inl e' ↦ rw (not_below, e, e') (lose_call-freed g none 38 distinct idle)
        | inr e' ↦
            let busy : says env g buf at_busy ≡ true = rw (e, e') at lost in
            rw (not_below, e, e', busy)
              (lose_call-freed g (some (call_of g).channelno) 17 distinct idle)
      ]
    ]

-- A line that the switch on the state lets pass, as it is or changed, is looked at for the words for
-- a lost call: where the switch has left the module in a state from `GSM_STATE_READY` on, with no
-- timer set and distinct references of calls, a line with one of these words ends the round with
-- the event of a hangup; the module is ready, and the call it has looked up is not found any more.
pub receive_line-freed :
    (env : Env) (i : ℕ) (g h : Gsm) (buf text : List ℕ)
    → on_state env g buf ≡ more h text
    → rank gsm_state_ready ≤ rank h.state
    → tells_lost env h text ≡ true
    → IsDistinct h.pool.callpool
    → h.pool.retranstimer ≡ 0
    → (q : Gsm) × (receive_line env i g buf ≡ event q)
      × (q.state ≡ gsm_state_ready)
      × (event_id q.ev ≡ gsm_event_hangup)
      × (find_call q.pool.callpool h.pool.cref ≡ none)
unfolding receive_line and_then
receive_line-freed env i g h buf text passed up lost distinct idle =
    let (q, e, ready, hung_up, gone) = check_lost-freed env h text up lost distinct idle in
    (q, rw (receive_line, passed, e) refl, ready, hung_up, gone)
