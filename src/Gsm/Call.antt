-- ===== src/Gsm/Call.antt =====
-- The calls of a module: `struct at_call` of src/libgsmat/libgsmat.h and the call functions of
-- src/libgsmat/gsm.c, on the list of calls, the counter of references and the timer that they
-- share. A pointer to a call is its reference; memory is always there.
pub mod Distinct
use chan_extra.Prelude.{
  ℕ, zero, suc, ◌+◌, ◌-◌, ◌%◌, ◌^◌, Bool, true, false, not, ◌&&◌, ◌||◌, Option, none, some, List,
  [], ◌∷◌, ◌++◌, ltb, leb, ◌==◌, if◌then◌else◌, take, bind, u8,
}
use chan_extra.Sched
use chan_extra.Sched.{gsm_schedule_del}
use chan_extra.Gsm.State.{
  CallState, at_call_state_null, at_call_state_call_initiated, at_call_state_overlap_sending,
  at_call_state_outgoing_call_proceeding, at_call_state_call_delivered, at_call_state_call_present,
  at_call_state_call_received, at_call_state_connect_request,
  at_call_state_incoming_call_proceeding, at_call_state_active, at_call_state_disconnect_request,
  at_call_state_disconnect_indication, at_call_state_suspend_request, at_call_state_resume_request,
  at_call_state_release_request, at_call_state_overlap_receiving, at_call_state_restart_request,
  at_call_state_restart,
}

-- The fields that the code sets or reads. `none` is a channel of -1; the two flags of the channel
-- are two fields; an `int` that may be negative is its bit pattern.
pub record AtCall : Type 0 where
  pub cr : ℕ
  pub channelno : Option ℕ
  pub preferred : Bool
  pub exclusive : Bool
  pub alive : Bool
  pub sendhangupack : Bool
  pub proc : Bool
  pub userl1 : ℕ
  pub userl2 : ℕ
  pub userl3 : ℕ
  pub progcode : ℕ
  pub progloc : ℕ
  pub progress : ℕ
  pub progressmask : ℕ
  pub causecode : ℕ
  pub causeloc : ℕ
  pub cause : ℕ
  pub peercallstate : CallState
  pub ourcallstate : CallState
  pub callernum : List ℕ
  pub callername : List ℕ
  pub callednum : List ℕ
  pub complete : ℕ
  pub newcall : Bool

-- What a call that `calloc` gave is made.
unfoldable pub new_at_call : ℕ → AtCall
new_at_call cr = record {
  cr = cr;
  channelno = none;
  preferred = false;
  exclusive = false;
  alive = false;
  sendhangupack = false;
  proc = false;
  userl1 = 0;
  userl2 = 0;
  userl3 = 0;
  progcode = 0;
  progloc = 0;
  progress = 0;
  progressmask = 0;
  causecode = 0;
  causeloc = 0;
  cause = 0;
  peercallstate = at_call_state_null;
  ourcallstate = at_call_state_null;
  callernum = [];
  callername = [];
  callednum = [];
  complete = 0;
  newcall = true;
}

-- The list of calls, the counter, the scheduler and the timer's id, 0 for none.
pub record Pool : Type 0 where
  pub callpool : List AtCall
  pub cref : ℕ
  pub sched : Sched.State
  pub retranstimer : ℕ

unfoldable pub find_call : List AtCall → ℕ → Option AtCall
find_call [] cr = none
find_call (c ∷ calls) cr = if c.cr == cr then some c else find_call calls cr

-- The list after the function; the call is the first of the reference in it.
unfoldable pub getcall_list : List AtCall → ℕ → List AtCall
unfolding new_at_call
getcall_list [] cr = new_at_call cr ∷ []
getcall_list (c ∷ calls) cr = if c.cr == cr then c ∷ calls else c ∷ getcall_list calls cr

unfoldable pub gsm_getcall : Pool → ℕ → Pool
unfolding getcall_list
gsm_getcall p cr = record p { callpool = getcall_list p.callpool cr }

-- The new reference is the counter.
unfoldable pub gsm_new_call : Pool → Pool
unfolding gsm_getcall
gsm_new_call p =
    let cref = if ltb 32767 (p.cref + 1) then 1 else p.cref + 1 in
    gsm_getcall (record p { cref = cref }) cref

-- A change of the fields of the call of a reference.
unfoldable pub update_list : List AtCall → ℕ → (AtCall → AtCall) → List AtCall
update_list [] cr f = []
update_list (c ∷ calls) cr f = if c.cr == cr then f c ∷ calls else c ∷ update_list calls cr f

unfoldable pub update_call : Pool → ℕ → (AtCall → AtCall) → Pool
unfolding update_list
update_call p cr f = record p { callpool = update_list p.callpool cr f }

unfoldable pub destroy_list : List AtCall → ℕ → List AtCall
destroy_list [] cr = []
destroy_list (c ∷ calls) cr = if c.cr == cr then calls else c ∷ destroy_list calls cr

-- The deletion of the timer, which is kept as an id. `none` is an id that is not in the table.
unfoldable pub stop_timer : Pool → Option Pool
stop_timer p =
    if p.retranstimer == 0
    then some p
    else bind (gsm_schedule_del p.sched p.retranstimer) (λ sched. some (record p { sched = sched }))

-- The timer is stopped when there is such a call.
unfoldable pub gsm_call_destroy : Pool → ℕ → Option Pool
gsm_call_destroy p cr = elim (find_call p.callpool cr) [
  | none ↦ some p
  | some c ↦ bind (stop_timer p) (λ p'. some (record p' { callpool = destroy_list p'.callpool cr }))
]

-- `if (channel)`; a channel of 0 leaves the call's.
unfoldable pub set_channel : ℕ → AtCall → AtCall
set_channel channel c = if channel == 0 then c else record c { channelno = some (u8 channel) }

-- What is set where `info` tells of audio: progress in a private network, coded by CCITT.
unfoldable pub set_progress : Bool → AtCall → AtCall
set_progress info c =
    if info
    then record c { progloc = 1; progcode = 0; progressmask = 8 }
    else record c { progressmask = 0 }

unfoldable pub call_proceeding : ℕ → Bool → AtCall → AtCall
unfolding set_channel set_progress
call_proceeding channel info c =
    let placed = record (set_channel channel c) {
      preferred = false;
      exclusive = true;
      ourcallstate = at_call_state_incoming_call_proceeding;
      peercallstate = at_call_state_outgoing_call_proceeding;
    } in
    record (set_progress info placed) { proc = true; alive = true }

unfoldable pub gsm_proceeding : Pool → ℕ → ℕ → Bool → Pool
unfolding update_call call_proceeding
gsm_proceeding p cr channel info = update_call p cr (call_proceeding channel info)

unfoldable pub acknowledge : ℕ → Bool → AtCall → AtCall
unfolding call_proceeding set_progress
acknowledge channel info c =
    let c' = if c.proc then c else call_proceeding channel false c in
    record (set_progress info c') {
      ourcallstate = at_call_state_call_received;
      peercallstate = at_call_state_call_delivered;
      alive = true;
    }

unfoldable pub gsm_acknowledge : Pool → ℕ → ℕ → Bool → Pool
unfolding update_call acknowledge
gsm_acknowledge p cr channel info = update_call p cr (acknowledge channel info)

unfoldable pub gsm_progress : Pool → ℕ → ℕ → Bool → Pool
unfolding update_call set_channel set_progress
gsm_progress p cr channel info =
    update_call p cr (λ c. record (set_progress info (set_channel channel c)) { alive = true })

unfoldable pub gsm_information : Pool → ℕ → ℕ → Pool
unfolding update_call
gsm_information p cr digit = update_call p cr (λ c. record c { callednum = digit ∷ [] })

unfoldable pub gsm_need_more_info : Pool → ℕ → ℕ → Pool
unfolding update_call set_channel
gsm_need_more_info p cr channel = update_call p cr (λ c. record (set_channel channel c) {
  preferred = false;
  exclusive = true;
  progressmask = 0;
  ourcallstate = at_call_state_overlap_receiving;
  peercallstate = at_call_state_overlap_sending;
  alive = true;
})

-- What `gsm_answer` makes of the call.
unfoldable pub answered : ℕ → AtCall → AtCall
unfolding set_channel
answered channel c = record (set_channel channel c) {
  preferred = false;
  exclusive = true;
  progressmask = 0;
  ourcallstate = at_call_state_connect_request;
  peercallstate = at_call_state_active;
  alive = true;
}

-- `struct gsm_sr`; `none` is NULL.
pub record GsmSr : Type 0 where
  pub channel : ℕ
  pub exclusive_channel : Bool
  pub caller : Option (List ℕ)
  pub sr_callername : Option (List ℕ)
  pub called : Option (List ℕ)
  pub sr_userl1 : ℕ
  pub numcomplete : ℕ

-- What `gsm_setup` makes of the call before it dials; the texts fit their arrays of 256.
unfoldable pub setup_call : GsmSr → AtCall → AtCall
setup_call req c =
    let channel = u8 req.channel in
    let base : AtCall = record c {
      userl1 = if req.sr_userl1 == 0 then 0x22 else req.sr_userl1;
      userl2 = 2 ^ 32 - 1;
      userl3 = 2 ^ 32 - 1;
      channelno = some channel;
      newcall = false;
      complete = req.numcomplete;
      exclusive =
          if req.exclusive_channel then true else if channel == 0 then c.exclusive else false;
      preferred =
          if req.exclusive_channel then false else if channel == 0 then c.preferred else true;
      callernum = elim req.caller [ none ↦ [] | some text ↦ text ];
      callername = elim req.caller [
        | none ↦ []
        | some text ↦ elim req.sr_callername [ none ↦ [] | some name ↦ name ]
      ];
    } in
    elim req.called [ none ↦ base | some text ↦ record base { callednum = text; progressmask = 0 } ]

-- What it makes of it afterwards.
unfoldable pub dialled : AtCall → AtCall
dialled c = record c {
  alive = true;
  sendhangupack = true;
  ourcallstate = at_call_state_call_initiated;
  peercallstate = at_call_state_overlap_sending;
}

unfoldable pub disconnected : ℕ → AtCall → AtCall
disconnected cause c =
    let c' : AtCall = record c {
      ourcallstate = at_call_state_disconnect_request;
      peercallstate = at_call_state_disconnect_indication;
    } in
    if c.alive
    then record c' {
      alive = false;
      cause = cause;
      causecode = 0;
      causeloc = 1;
      sendhangupack = true;
    }
    else c'

-- The timer is stopped for a call that is alive.
unfoldable pub gsm_call_disconnect : Pool → AtCall → ℕ → Option Pool
unfolding update_call disconnected
gsm_call_disconnect p c cause =
    let p' = update_call p c.cr (disconnected cause) in if c.alive then stop_timer p' else some p'

-- What the switch of `gsm_hangup` does in each state of the call.
pub data HangupStep : Type 0 where
  destroys disconnects reports ignores : HangupStep

unfoldable pub hangup_step : CallState → CallState → HangupStep
hangup_step at_call_state_null at_call_state_null = destroys
hangup_step at_call_state_null at_call_state_release_request = destroys
hangup_step at_call_state_null peer = ignores
hangup_step at_call_state_disconnect_request peer = destroys
hangup_step at_call_state_disconnect_indication peer = destroys
hangup_step at_call_state_release_request peer = destroys
hangup_step at_call_state_restart peer = ignores
hangup_step at_call_state_restart_request peer = ignores
hangup_step at_call_state_suspend_request peer = reports
hangup_step at_call_state_resume_request peer = reports
hangup_step our peer = disconnects
