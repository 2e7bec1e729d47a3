-- ===== src/Sched/Run.antt =====
-- A run of the scheduler's due events, with callbacks that report nothing.
use chan_extra.Prelude.{
  ℕ, ◌-◌, ◌≡◌, refl, sym, ap, ◌∙◌, inl, inr, true, false, List, [], ◌∷◌, ◌++◌, map, arith,
  Bool-cases, get_or, set, length, set-append, Option-cases, none, some, append_assoc,
  if◌then◌else◌, length-append,
}
use chan_extra.Sched.{
  Timeval, Slot, State, is_free, empty_slot, due, fire, run_loop, gsm_schedule_run,
}

-- What becomes of a slot: its callback is taken out when its time has come.
abbrev pub expire : Timeval → Slot → Slot
expire now s = if due s now then record s { callback = none; arg = 0 } else s

-- A callback that schedules nothing, takes nothing back and reports no event.
abbrev pub IsQuiet : (ℕ → ℕ → State → State) → Type 0
IsQuiet call =
    (function arg : ℕ) (st : State)
    → ((call function arg st).slots ≡ st.slots) × ((call function arg st).schedev ≡ st.schedev)

get_or-middle :
    (before : List Slot) (s : Slot) (slots : List Slot) (d : Slot)
    → get_or (before ++ (s ∷ slots)) (length before) d ≡ s
get_or-middle [] s slots d = refl
get_or-middle (b ∷ before) s slots d = get_or-middle before s slots d

due-callback :
    (s : Slot) (now : Timeval) → due s now ≡ true → (function : ℕ) × (s.callback ≡ some function)
unfolding due is_free
due-callback s now h = elim (Option-cases s.callback) [
  | inl free ↦ absurd (ground (arith, rw free at h))
  | inr used ↦ used
]

module _ (call : ℕ → ℕ → State → State) (quiet : IsQuiet call) where
  fire-due :
      (st : State) (x : ℕ) (function : ℕ)
      → (get_or st.slots x empty_slot).callback ≡ some function
      → ((fire call st x).slots
          ≡ set st.slots x (record (get_or st.slots x empty_slot) { callback = none; arg = 0 }))
        × ((fire call st x).schedev ≡ false)
  unfolding fire
  fire-due st x function used = rw (fire, used) (quiet function _ _)

  run_loop-expire :
      (slots before : List Slot) (st : State) (now : Timeval)
      → st.slots ≡ before ++ slots
      → let run = run_loop call (length slots) (length before) st now in
        (run.1 ≡ false) × (run.0.slots ≡ before ++ map (expire now) slots)
  unfolding run_loop
  run_loop-expire [] before st now e = (refl, e)
  run_loop-expire (s ∷ slots) before st now e = elim (Bool-cases (due s now)) [
    | inl come ↦
        let here = get_or-middle before s slots empty_slot in
        let (function, used) = due-callback s now come in
        let (freed, no_event) = fire-due st (length before) function (rw (e, here) used) in
        let s' : Slot = record s { callback = none; arg = 0 } in
        let (quiet_rest, rest) =
          run_loop-expire slots (before ++ (s' ∷ [])) (fire call st (length before)) now (
            rw (freed, e, here, set-append before s slots s', append_assoc before (s' ∷ []) slots)
              refl) in
        let come' : due (get_or st.slots (length before) empty_slot) now ≡ true =
          rw (e, here) come in
        rw (come', no_event, come)
          (
            rw (length-append before (s' ∷ [])) at quiet_rest,
            rw
                (
                  length-append before (s' ∷ []),
                  append_assoc before (s' ∷ []) (map (expire now) slots),
                )
                at rest,
          )
    | inr not_come ↦
        let here = get_or-middle before s slots empty_slot in
        let (quiet_rest, rest) =
          run_loop-expire slots (before ++ (s ∷ [])) st now
            (e ∙ sym (append_assoc before (s ∷ []) slots)) in
        let not_come' : due (get_or st.slots (length before) empty_slot) now ≡ false =
          rw (e, here) not_come in
        rw (not_come', not_come)
          (
            rw (length-append before (s ∷ [])) at quiet_rest,
            rw
                (
                  length-append before (s ∷ []),
                  append_assoc before (s ∷ []) (map (expire now) slots),
                )
                at rest,
          )
  ]

  -- With callbacks that schedule nothing, take nothing back and report no event, a run reports no
  -- event, and in a table whose first slot is `s` the slots after it lose their callback and its
  -- data exactly where their time has come; the first slot and all others are as before.
  pub schedule_run-expire :
      (st : State) (s : Slot) (slots : List Slot) (now : Timeval)
      → st.slots ≡ s ∷ slots
      → let run = gsm_schedule_run call st now in
        (run.1 ≡ false) × (run.0.slots ≡ s ∷ map (expire now) slots)
  unfolding gsm_schedule_run
  schedule_run-expire st s slots now e =
      let rounds : length st.slots - 1 ≡ length slots = ap (λ l. length l - 1) e ∙ omega arith in
      rw rounds (run_loop-expire slots (s ∷ []) st now e)
