-- ===== src/Sched/Tests.antt =====
-- The scheduler on a table of three slots.
use chan_extra.Prelude.{ℕ, ◌≡◌, refl, false, some, [], ◌∷◌, map, arith}
use chan_extra.Sched.{
  Timeval, Slot, State, empty_slot, gsm_schedule_event, gsm_schedule_next, gsm_schedule_run,
}
use chan_extra.Sched.Table.{IsScheduled, schedule_event-IsScheduled}
use chan_extra.Sched.Time.{NotBefore, IsTimeOf, schedule_next_lem}
use chan_extra.Sched.Run.{expire, schedule_run-expire}

abbrev at : ℕ → ℕ → Timeval
at s u = record { sec = s; usec = u }

abbrev slot : ℕ → Slot
slot s = record { when = at s 0; callback = some 7; arg = 3 }

abbrev one_free : State
one_free = record { slots = empty_slot ∷ slot 5 ∷ empty_slot ∷ []; maxsched = 1; schedev = false }

abbrev full : State
full = record { slots = empty_slot ∷ slot 5 ∷ slot 4 ∷ []; maxsched = 2; schedev = false }

abbrev callback : ℕ → ℕ → State → State
callback function arg st = st

schedule_event-IsScheduled_example :
    IsScheduled one_free (at 1 0) 1500 7 9 2 (gsm_schedule_event one_free (at 1 0) 1500 7 9).0
unfolding gsm_schedule_event
schedule_event-IsScheduled_example = schedule_event-IsScheduled one_free (at 1 0) 1500 7 9 2 refl

schedule_next_lem_example :
    NotBefore (at 4 0) (slot 5 ∷ slot 4 ∷ []) × IsTimeOf (at 4 0) (slot 5 ∷ slot 4 ∷ [])
unfolding gsm_schedule_next
schedule_next_lem_example = schedule_next_lem full (at 4 0) (ground arith) refl

schedule_run-expire_example :
    ((gsm_schedule_run callback full (at 4 5)).1 ≡ false)
    × ((gsm_schedule_run callback full (at 4 5)).0.slots
        ≡ empty_slot ∷ map (expire (at 4 5)) (slot 5 ∷ slot 4 ∷ []))
schedule_run-expire_example =
    schedule_run-expire callback (λ function arg st. (refl, refl)) full empty_slot
      (slot 5 ∷ slot 4 ∷ []) (at 4 5) refl
