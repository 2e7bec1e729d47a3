-- ===== src/Sched/Table.antt =====
-- Which slot an event is given, and what becomes of the others.
use chan_extra.Prelude.{
  ℕ, zero, suc, ◌+◌, ◌-◌, ◌≤◌, ◌<◌, ◌≡◌, ◌≢◌, refl, ◌∙◌, ◌↔◌, inl, inr, true, false, none, some,
  List, [], ◌∷◌, arith, Bool-cases, Option-cases, get_or, set, length, drop, length-set,
  length-drop, get_or-set_self, get_or-set_ne, lt→ltb,
}
use chan_extra.Sched.{
  Timeval, Slot, State, is_free, empty_slot, find_free, deadline, gsm_schedule_check,
  gsm_schedule_event, gsm_schedule_del,
}

find_free-some :
    (slots : List Slot) (x id : ℕ)
    → find_free slots x ≡ some id
    → (x ≤ id) × (id < x + length slots) × (is_free (get_or slots (id - x) empty_slot) ≡ true)
unfolding find_free
find_free-some [] x id e = absurd (ground arith)
find_free-some (s ∷ slots) x id e = elim (Bool-cases (is_free s)) [
  | inl free ↦
      let here : x ≡ id = ground arith in
      let none_before : id - x ≡ 0 = omega arith in (omega arith, omega arith, rw none_before free)
  | inr busy ↦
      let (le, lt, free) = find_free-some slots (x + 1) id (rw busy at e) in
      let one_more : id - x ≡ suc (id - (x + 1)) = omega arith in
      (omega arith, omega arith, rw one_more free)
]

find_free-none :
    (slots : List Slot) (x i : ℕ)
    → find_free slots x ≡ none
    → i < length slots
    → is_free (get_or slots i empty_slot) ≡ false
unfolding find_free
find_free-none [] x i e h = absurd (omega arith)
find_free-none (s ∷ slots) x zero e h = elim (Bool-cases (is_free s)) [
  | inl free ↦ cc (rw free at e)
  | inr busy ↦ busy
]
find_free-none (s ∷ slots) x (suc i) e h = elim (Bool-cases (is_free s)) [
  | inl free ↦ cc (rw free at e)
  | inr busy ↦ find_free-none slots (x + 1) i (rw busy at e) (omega arith)
]

get_or-drop_one :
    (slots : List Slot) (i : ℕ)
    → get_or (drop 1 slots) i empty_slot ≡ get_or slots (suc i) empty_slot
get_or-drop_one [] i = refl
get_or-drop_one (s ∷ slots) i = refl

-- What it means that an event was put into slot `id`.
pub record IsScheduled (st : State) (now : Timeval) (ms function arg id : ℕ) (st' : State)
    : Type 0 where
  pub first : 0 < id
  pub inside : id < length st.slots
  pub was_free : is_free (get_or st.slots id empty_slot) ≡ true
  pub stored :
      get_or st'.slots id empty_slot
      ≡ record { when = deadline now ms; callback = some function; arg = arg }
  pub others : (j : ℕ) → id ≢ j → get_or st'.slots j empty_slot ≡ get_or st.slots j empty_slot
  pub same_size : length st'.slots ≡ length st.slots

-- An event that is given an id has a slot of its own: the slot was free, is neither the first of
-- the table nor past its end, and holds the event, and no other slot has changed.
pub schedule_event-IsScheduled :
    (st : State) (now : Timeval) (ms function arg id : ℕ)
    → (gsm_schedule_event st now ms function arg).1 ≡ some id
    → IsScheduled st now ms function arg id (gsm_schedule_event st now ms function arg).0
unfolding gsm_schedule_event
schedule_event-IsScheduled st now ms function arg id e =
    elim (Option-cases (find_free (drop 1 st.slots) 1)) [
      | inl full ↦ absurd (ground arith)
      | inr (x, found) ↦
          let same : x ≡ id = ground arith in
          let (le, lt, free) = find_free-some (drop 1 st.slots) 1 id (rw same at found) in
          let inside : id < length st.slots = omega (arith, length-drop 1 st.slots) in
          let new : Slot = record { when = deadline now ms; callback = some function; arg = arg } in
          let up : suc (id - 1) ≡ id = omega arith in
          rw (rw same at found, gsm_schedule_event)
            (record {
              first = omega arith;
              inside = inside;
              was_free = rw (get_or-drop_one st.slots (id - 1), up) at free;
              stored = get_or-set_self st.slots id new empty_slot inside;
              others = λ j ne. get_or-set_ne st.slots id j new empty_slot ne;
              same_size = length-set st.slots id new;
            })
    ]

-- An event is refused exactly when `gsm_schedule_check` refuses.
pub schedule_event-none :
    (st : State) (now : Timeval) (ms function arg : ℕ)
    → ((gsm_schedule_event st now ms function arg).1 ≡ none) ↔ (gsm_schedule_check st ≡ false)
unfolding gsm_schedule_event gsm_schedule_check
schedule_event-none st now ms function arg = ground arith

-- When `gsm_schedule_check` refuses, `gsm_schedule_event` leaves the state as it is and gives no
-- id, and every slot of the table but the first is taken.
schedule_check-false :
    (st : State) (now : Timeval) (ms function arg : ℕ)
    → gsm_schedule_check st ≡ false
    → ((gsm_schedule_event st now ms function arg) ≡ (st, none))
      × ((i : ℕ) → 0 < i → i < length st.slots → is_free (get_or st.slots i empty_slot) ≡ false)
unfolding gsm_schedule_event gsm_schedule_check
schedule_check-false st now ms function arg e =
    elim (Option-cases (find_free (drop 1 st.slots) 1)) [
      | inl full ↦ (
        rw (full, gsm_schedule_event),
        λ i pos h.
            let up : suc (i - 1) ≡ i = omega arith in
            rw (get_or-drop_one st.slots (i - 1), up) at
              (find_free-none (drop 1 st.slots) 1 (i - 1) full
                (omega (arith, length-drop 1 st.slots))),
      )
      | inr (x, found) ↦ absurd (ground arith)
    ]

-- Deleting an event that was just scheduled frees its slot, and leaves every other slot as it was
-- before the event.
schedule_del-schedule_event :
    (st : State) (now : Timeval) (ms function arg id : ℕ)
    → (gsm_schedule_event st now ms function arg).1 ≡ some id
    → (st' : State) × (gsm_schedule_del (gsm_schedule_event st now ms function arg).0 id ≡ some st')
      × (is_free (get_or st'.slots id empty_slot) ≡ true)
      × ((j : ℕ) → id ≢ j → get_or st'.slots j empty_slot ≡ get_or st.slots j empty_slot)
unfolding gsm_schedule_del is_free
schedule_del-schedule_event st now ms function arg id e =
    let mid = (gsm_schedule_event st now ms function arg).0 in
    let v = schedule_event-IsScheduled st now ms function arg id e in
    let inside = v.inside in
    let size = v.same_size in
    let here : id < length mid.slots = omega arith in
    let cleared : Slot = record (get_or mid.slots id empty_slot) { callback = none } in
    (
      record mid { slots = set mid.slots id cleared },
      rw (lt→ltb id (length mid.slots) here),
      rw (get_or-set_self mid.slots id cleared empty_slot here),
      λ j ne. get_or-set_ne mid.slots id j cleared empty_slot ne ∙ v.others j ne,
    )
