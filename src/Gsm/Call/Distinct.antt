-- ===== src/Gsm/Call/Distinct.antt =====
-- The calls of a module have distinct references, through all the updates of src/libgsmat that the
-- data type below lists.
use chan_extra.Prelude.{
  ltb, ==→eq, ℕ, ◌+◌, ◌≡◌, refl, ◌≢◌, inl, inr, Bool, true, false, Bool-cases, Option-cases, Option,
  none, some, List, [], ◌∷◌, ◌==◌, if◌then◌else◌, All, arith,
}
use chan_extra.Sched.{gsm_schedule_del}
use chan_extra.Gsm.State.{
  at_call_state_active, at_call_state_call_initiated, at_call_state_call_present,
  at_call_state_null, at_call_state_overlap_receiving, at_call_state_overlap_sending,
}
use chan_extra.Gsm.Talk.{over}
use chan_extra.Gsm.Reset.{reset_call}
use chan_extra.Gsm.Call.{
  AtCall, GsmSr, Pool, acknowledge, answered, call_proceeding, destroy_list, dialled, disconnected,
  find_call, getcall_list, gsm_acknowledge, gsm_call_destroy, gsm_call_disconnect, gsm_getcall,
  gsm_information, gsm_need_more_info, gsm_new_call, gsm_proceeding, gsm_progress, set_channel,
  set_progress, setup_call, stop_timer, update_call, update_list,
}

-- No call of the list has the reference.
abbrev pub IsFree : ℕ → List AtCall → Type 0
IsFree cr calls = All (λ c. c.cr ≢ cr) calls

abbrev pub IsDistinct : List AtCall → Type 0
IsDistinct [] = Unit
IsDistinct (c ∷ calls) = IsFree c.cr calls × IsDistinct calls

-- What is done to the calls of a module, by reference: by the functions for a call of gsm.c, by the
-- lines that `module_receive` and `gsm_set_switchtype` take (a call is over, rings, is alive, is
-- active, has its states cleared or its channel set) and by `gsm_reset`.
pub data CallStep : Pool → Pool → Type 0 where
  looked_up : {p : Pool} (cr : ℕ) → CallStep p (gsm_getcall p cr)
  made : {p : Pool} → CallStep p (gsm_new_call p)
  acknowledged :
      {p : Pool} (cr channel : ℕ) (info : Bool) → CallStep p (gsm_acknowledge p cr channel info)
  proceeded :
      {p : Pool} (cr channel : ℕ) (info : Bool) → CallStep p (gsm_proceeding p cr channel info)
  progressed :
      {p : Pool} (cr channel : ℕ) (info : Bool) → CallStep p (gsm_progress p cr channel info)
  informed : {p : Pool} (cr digit : ℕ) → CallStep p (gsm_information p cr digit)
  asked_more : {p : Pool} (cr channel : ℕ) → CallStep p (gsm_need_more_info p cr channel)
  was_answered : {p : Pool} (cr channel : ℕ) → CallStep p (update_call p cr (answered channel))
  set_up : {p : Pool} (cr : ℕ) (req : GsmSr) → CallStep p (update_call p cr (setup_call req))
  was_dialled : {p : Pool} (cr : ℕ) → CallStep p (update_call p cr dialled)
  was_over : {p : Pool} (cr : ℕ) → CallStep p (update_call p cr over)
  has_rung :
      {p : Pool} (cr : ℕ)
      → CallStep p (
          update_call p cr (λ c. record c {
            newcall = false;
            ourcallstate = at_call_state_call_present;
            peercallstate = at_call_state_call_initiated;
            alive = true;
          }))
  was_alive : {p : Pool} (cr : ℕ) → CallStep p (update_call p cr (λ c. record c { alive = true }))
  was_active :
      {p : Pool} (cr : ℕ)
      → CallStep p (
          update_call p cr (λ c. record c {
            ourcallstate = at_call_state_active;
            peercallstate = at_call_state_active;
            alive = true;
          }))
  was_cleared :
      {p : Pool} (cr : ℕ)
      → CallStep p (
          update_call p cr (λ c. record c {
            ourcallstate = at_call_state_null;
            peercallstate = at_call_state_null;
          }))
  put_first :
      {p : Pool} (cr : ℕ) → CallStep p (update_call p cr (λ c. record c { channelno = some 1 }))
  was_reset : {p : Pool} (cr channel : ℕ) → CallStep p (update_call p cr (reset_call channel))
  hung_up :
      {p q : Pool} (c : AtCall) (cause : ℕ) → gsm_call_disconnect p c cause ≡ some q → CallStep p q
  destroyed : {p q : Pool} (cr : ℕ) → gsm_call_destroy p cr ≡ some q → CallStep p q

pub data CallRun : Pool → Pool → Type 0 where
  stay : {p : Pool} → CallRun p p
  step : {p q r : Pool} → CallStep p q → CallRun q r → CallRun p r

IsFree-getcall_list :
    (cr other : ℕ) (calls : List AtCall)
    → cr ≢ other
    → IsFree other calls
    → IsFree other (getcall_list calls cr)
unfolding getcall_list
IsFree-getcall_list cr other [] ne h = (ne, tt)
IsFree-getcall_list cr other (c ∷ calls) ne h = elim (Bool-cases (c.cr == cr)) [
  | inl e ↦ rw e h
  | inr e ↦ rw e (h.0, IsFree-getcall_list cr other calls ne h.1)
]

pub getcall_list-IsDistinct :
    (cr : ℕ) (calls : List AtCall) → IsDistinct calls → IsDistinct (getcall_list calls cr)
unfolding getcall_list
getcall_list-IsDistinct cr [] h = (tt, tt)
getcall_list-IsDistinct cr (c ∷ calls) h = elim (Bool-cases (c.cr == cr)) [
  | inl e ↦ rw e h
  | inr e ↦
      rw e
        (IsFree-getcall_list cr c.cr calls (ground arith) h.0, getcall_list-IsDistinct cr calls h.1)
]

module _ (cr : ℕ) (f : AtCall → AtCall) (keeps : (c : AtCall) → (f c).cr ≡ c.cr) where
  IsFree-update_list :
      (other : ℕ) (calls : List AtCall) → IsFree other calls → IsFree other (update_list calls cr f)
  unfolding update_list
  IsFree-update_list other [] h = h
  IsFree-update_list other (c ∷ calls) h = elim (Bool-cases (c.cr == cr)) [
    | inl e ↦ rw e (rw (keeps c) h.0, h.1)
    | inr e ↦ rw e (h.0, IsFree-update_list other calls h.1)
  ]

  pub update_list-IsDistinct :
      (calls : List AtCall) → IsDistinct calls → IsDistinct (update_list calls cr f)
  unfolding update_list
  update_list-IsDistinct [] h = h
  update_list-IsDistinct (c ∷ calls) h = elim (Bool-cases (c.cr == cr)) [
    | inl e ↦ rw e (rw (keeps c) h.0, h.1)
    | inr e ↦ rw e (IsFree-update_list c.cr calls h.0, update_list-IsDistinct calls h.1)
  ]

IsFree-destroy_list :
    (cr other : ℕ) (calls : List AtCall) → IsFree other calls → IsFree other (destroy_list calls cr)
unfolding destroy_list
IsFree-destroy_list cr other [] h = h
IsFree-destroy_list cr other (c ∷ calls) h = elim (Bool-cases (c.cr == cr)) [
  | inl e ↦ rw e h.1
  | inr e ↦ rw e (h.0, IsFree-destroy_list cr other calls h.1)
]

pub destroy_list-IsDistinct :
    (cr : ℕ) (calls : List AtCall) → IsDistinct calls → IsDistinct (destroy_list calls cr)
unfolding destroy_list
destroy_list-IsDistinct cr [] h = h
destroy_list-IsDistinct cr (c ∷ calls) h = elim (Bool-cases (c.cr == cr)) [
  | inl e ↦ rw e h.1
  | inr e ↦ rw e (IsFree-destroy_list cr c.cr calls h.0, destroy_list-IsDistinct cr calls h.1)
]

find_call-IsFree : (cr : ℕ) (calls : List AtCall) → IsFree cr calls → find_call calls cr ≡ none
unfolding find_call
find_call-IsFree cr [] h = refl
find_call-IsFree cr (c ∷ calls) h = ground (arith, find_call-IsFree cr calls h.1, h.0)

-- A destroyed call is not found any more.
pub find_call-destroy_list :
    (cr : ℕ) (calls : List AtCall) → IsDistinct calls → find_call (destroy_list calls cr) cr ≡ none
unfolding destroy_list find_call
find_call-destroy_list cr [] h = refl
find_call-destroy_list cr (c ∷ calls) h = elim (Bool-cases (c.cr == cr)) [
  | inl e ↦ rw e (find_call-IsFree cr calls (rw (==→eq c.cr cr e) at h.0))
  | inr e ↦ rw e (rw e (find_call-destroy_list cr calls h.1))
]

kept-channel : (channel : ℕ) (c : AtCall) → (set_channel channel c).cr ≡ c.cr
unfolding set_channel
kept-channel channel c = ground arith

kept-progress :
    (channel : ℕ) (info : Bool) (c : AtCall) → (set_progress info (set_channel channel c)).cr ≡ c.cr
unfolding set_progress set_channel
kept-progress channel info c = ground arith

kept-disconnected : (cause : ℕ) (c : AtCall) → (disconnected cause c).cr ≡ c.cr
unfolding disconnected
kept-disconnected cause c = ground arith

kept-proceeding :
    (channel : ℕ) (info : Bool) (c : AtCall) → (call_proceeding channel info c).cr ≡ c.cr
unfolding call_proceeding
kept-proceeding channel info c = ground arith

kept-acknowledge : (channel : ℕ) (info : Bool) (c : AtCall) → (acknowledge channel info c).cr ≡ c.cr
unfolding acknowledge
kept-acknowledge channel info c = ground arith

kept-setup : (req : GsmSr) (c : AtCall) → (setup_call req c).cr ≡ c.cr
unfolding setup_call
kept-setup req c = ground arith

-- Of a state that is there.
abbrev IsSafe : Option Pool → Type 0
IsSafe none = Unit
IsSafe (some p) = IsDistinct p.callpool

stop_timer-IsSafe : (p : Pool) → IsDistinct p.callpool → IsSafe (stop_timer p)
unfolding stop_timer
stop_timer-IsSafe p h = elim (Bool-cases (p.retranstimer == 0)) [
  | inl e ↦ rw (stop_timer, e) h
  | inr e ↦ elim (Option-cases (gsm_schedule_del p.sched p.retranstimer)) [
    | inl gone ↦ rw (stop_timer, e, gone) tt
    | inr (sched, kept) ↦ rw (stop_timer, e, kept) h
  ]
]

disconnect-IsSafe :
    (p : Pool) (c : AtCall) (cause : ℕ)
    → IsDistinct p.callpool
    → IsSafe (gsm_call_disconnect p c cause)
unfolding gsm_call_disconnect
disconnect-IsSafe p c cause h =
    let h' =
      update_list-IsDistinct c.cr (disconnected cause) (kept-disconnected cause) p.callpool h in
    elim (Bool-cases c.alive) [
      | inl e ↦
          rw (gsm_call_disconnect, e)
            (stop_timer-IsSafe (update_call p c.cr (disconnected cause)) h')
      | inr e ↦ rw (gsm_call_disconnect, e) h'
    ]

destroy-IsSafe : (p : Pool) (cr : ℕ) → IsDistinct p.callpool → IsSafe (gsm_call_destroy p cr)
unfolding gsm_call_destroy
destroy-IsSafe p cr h = elim (Option-cases (find_call p.callpool cr)) [
  | inl e ↦ rw (gsm_call_destroy, e) h
  | inr (c, e) ↦ elim (Option-cases (stop_timer p)) [
    | inl gone ↦ rw (gsm_call_destroy, e, gone) tt
    | inr (q, kept) ↦
        let h' = rw kept at (stop_timer-IsSafe p h) in
        rw (gsm_call_destroy, e, kept) (destroy_list-IsDistinct cr q.callpool h')
  ]
]

step-IsDistinct : (p q : Pool) → CallStep p q → IsDistinct p.callpool → IsDistinct q.callpool
unfolding over reset_call answered dialled gsm_getcall gsm_new_call gsm_acknowledge gsm_proceeding
    gsm_progress gsm_information gsm_need_more_info
step-IsDistinct p q (looked_up cr) h = getcall_list-IsDistinct cr p.callpool h
step-IsDistinct p q made h =
    getcall_list-IsDistinct (if ltb 32767 (p.cref + 1) then 1 else p.cref + 1) p.callpool h
step-IsDistinct p q (acknowledged cr channel info) h =
    update_list-IsDistinct cr (acknowledge channel info) (kept-acknowledge channel info) p.callpool
      h
step-IsDistinct p q (proceeded cr channel info) h =
    update_list-IsDistinct cr (call_proceeding channel info) (kept-proceeding channel info)
      p.callpool h
step-IsDistinct p q (progressed cr channel info) h =
    update_list-IsDistinct cr
      (λ c. record (set_progress info (set_channel channel c)) { alive = true })
      (kept-progress channel info) p.callpool h
step-IsDistinct p q (informed cr digit) h =
    update_list-IsDistinct cr (λ c. record c { callednum = digit ∷ [] }) (λ c. refl) p.callpool h
step-IsDistinct p q (asked_more cr channel) h =
    update_list-IsDistinct cr
      (λ c. record (set_channel channel c) {
        preferred = false;
        exclusive = true;
        progressmask = 0;
        ourcallstate = at_call_state_overlap_receiving;
        peercallstate = at_call_state_overlap_sending;
        alive = true;
      })
      (kept-channel channel) p.callpool h
step-IsDistinct p q (was_answered cr channel) h =
    update_list-IsDistinct cr (answered channel) (kept-channel channel) p.callpool h
step-IsDistinct p q (set_up cr req) h =
    update_list-IsDistinct cr (setup_call req) (kept-setup req) p.callpool h
step-IsDistinct p q (was_dialled cr) h = update_list-IsDistinct cr dialled (λ c. refl) p.callpool h
step-IsDistinct p q (was_over cr) h = update_list-IsDistinct cr over (λ c. refl) p.callpool h
step-IsDistinct p q (has_rung cr) h =
    update_list-IsDistinct cr
      (λ c. record c {
        newcall = false;
        ourcallstate = at_call_state_call_present;
        peercallstate = at_call_state_call_initiated;
        alive = true;
      })
      (λ c. refl) p.callpool h
step-IsDistinct p q (was_alive cr) h =
    update_list-IsDistinct cr (λ c. record c { alive = true }) (λ c. refl) p.callpool h
step-IsDistinct p q (was_active cr) h =
    update_list-IsDistinct cr
      (λ c. record c {
        ourcallstate = at_call_state_active;
        peercallstate = at_call_state_active;
        alive = true;
      })
      (λ c. refl) p.callpool h
step-IsDistinct p q (was_cleared cr) h =
    update_list-IsDistinct cr
      (λ c. record c { ourcallstate = at_call_state_null; peercallstate = at_call_state_null })
      (λ c. refl) p.callpool h
step-IsDistinct p q (put_first cr) h =
    update_list-IsDistinct cr (λ c. record c { channelno = some 1 }) (λ c. refl) p.callpool h
step-IsDistinct p q (was_reset cr channel) h =
    update_list-IsDistinct cr (reset_call channel) (λ c. refl) p.callpool h
step-IsDistinct p q (hung_up c cause e) h = rw e at (disconnect-IsSafe p c cause h)
step-IsDistinct p q (destroyed cr e) h = rw e at (destroy-IsSafe p cr h)

-- Through any sequence of the updates of `CallStep`, the references of the calls of a module stay
-- distinct, where they were: a call is looked up, made, answered, dialled, hung up or freed, or its
-- fields are written as the functions for a call, a line that comes in or a reset write them.
pub run-IsDistinct : {p q : Pool} → CallRun p q → IsDistinct p.callpool → IsDistinct q.callpool
run-IsDistinct stay h = h
run-IsDistinct {p} {q} (step {q = middle} first rest) h =
    run-IsDistinct rest (step-IsDistinct p middle first h)
