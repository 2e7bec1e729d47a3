-- ===== src/Sched/Time.antt =====
-- When an event is due, in microseconds.
use chan_extra.Prelude.{
  ℕ, suc, ◌+◌, ◌*◌, ◌≤◌, ◌<◌, ◌≡◌, ap, ◌↔◌, inl, inr, true, false, none, some, List, [], ◌∷◌, arith,
  Bool-cases, drop, All, length, get_or, ◌⊎◌, sym,
}
use native.Mathlib.Nat.{le_trans, le_of_eq}
use chan_extra.Sched.{
  Timeval, empty_slot, Slot, State, is_free, deadline, after, due, next_loop, gsm_schedule_next,
}

abbrev pub micros : Timeval → ℕ
micros t = t.sec * 1000000 + t.usec

-- The end time is the delay after the present, also where the microseconds are a whole second,
-- which is left as it is.
pub micros-deadline :
    (now : Timeval) (ms : ℕ)
    → now.usec < 1000000
    → (micros (deadline now ms) ≡ micros now + ms * 1000) × ((deadline now ms).usec ≤ 1000000)
unfolding deadline
micros-deadline now ms h = ground arith

-- A scheduled event is due from the time on that lies its delay after the present, and no earlier,
-- where both times have fewer microseconds than a second.
due_iff :
    (now later : Timeval) (ms function arg : ℕ)
    → now.usec < 1000000
    → later.usec < 1000000
    → (due (record { when = deadline now ms; callback = some function; arg = arg }) later ≡ true)
      ↔ (micros now + ms * 1000 ≤ micros later)
unfolding due deadline is_free
due_iff now later ms function arg h k = ground arith

-- The times of the slots in use that are not before `t`.
abbrev pub NotBefore : Timeval → List Slot → Type 0
NotBefore t = All (λ s. is_free s ≡ false → micros t ≤ micros s.when)

abbrev pub IsTime : Slot → Type 0
IsTime s = s.when.usec ≤ 1000000

after-le : (a b : Timeval) → b.usec ≤ 1000000 → after a b ≡ true → micros b ≤ micros a
unfolding after
after-le a b h e = ground arith

after-ge : (a b : Timeval) → a.usec ≤ 1000000 → after a b ≡ false → micros a ≤ micros b
unfolding after
after-ge a b h e = ground arith

-- `t` is the time of a slot in use.
abbrev pub IsTimeOf : Timeval → List Slot → Type 0
IsTimeOf t slots =
    (i : ℕ) × (i < length slots)
    × (is_free (get_or slots i empty_slot) ≡ false)
    × ((get_or slots i empty_slot).when ≡ t)

later_slot :
    (t : Timeval) (s : Slot) (slots : List Slot) → IsTimeOf t slots → IsTimeOf t (s ∷ slots)
later_slot t s slots (i, h, busy, e) = (suc i, omega arith, busy, e)

next_loop-some :
    (slots : List Slot) (c t : Timeval)
    → All IsTime slots
    → c.usec ≤ 1000000
    → next_loop slots (some c) ≡ some t
    → NotBefore t slots × (micros t ≤ micros c) × ((t ≡ c) ⊎ IsTimeOf t slots)
unfolding next_loop
next_loop-some [] c t times hc e = let p : t ≡ c = cc in (tt, le_of_eq (ap micros p), inl p)
next_loop-some (s ∷ slots) c t times hc e = elim (Bool-cases (is_free s)) [
  | inl free ↦
      let (least, le, from) = next_loop-some slots c t times.1 hc (rw free at e) in
      ((λ b. cc, least), le, older from)
  | inr busy ↦ elim (Bool-cases (after c s.when)) [
    | inl before ↦
        let (least, le, from) =
          next_loop-some slots s.when t times.1 times.0 (rw (busy, before) at e) in
        ((λ _. le, least), le_trans le (after-le c s.when times.0 before), inr (found busy from))
    | inr not_before ↦
        let (least, le, from) = next_loop-some slots c t times.1 hc (rw (busy, not_before) at e) in
        ((λ _. le_trans le (after-ge c s.when hc not_before), least), le, older from)
  ]
]
  where
    older : (t ≡ c) ⊎ IsTimeOf t slots → (t ≡ c) ⊎ IsTimeOf t (s ∷ slots)
    older (inl p) = inl p
    older (inr q) = inr (later_slot t s slots q)

    found : is_free s ≡ false → (t ≡ s.when) ⊎ IsTimeOf t slots → IsTimeOf t (s ∷ slots)
    found busy (inl p) = (0, ground arith, busy, sym p)
    found busy (inr q) = later_slot t s slots q

next_loop-none :
    (slots : List Slot) (t : Timeval)
    → All IsTime slots
    → next_loop slots none ≡ some t
    → NotBefore t slots × IsTimeOf t slots
unfolding next_loop
next_loop-none [] t times e = absurd (ground arith)
next_loop-none (s ∷ slots) t times e = elim (Bool-cases (is_free s)) [
  | inl free ↦
      let (least, from) = next_loop-none slots t times.1 (rw free at e) in
      ((λ b. cc, least), later_slot t s slots from)
  | inr busy ↦
      let (least, le, from) = next_loop-some slots s.when t times.1 times.0 (rw busy at e) in
      ((λ _. le, least), found s busy slots from)
]
  where
    found :
        (s : Slot)
        → is_free s ≡ false
        → (slots : List Slot) → (t ≡ s.when) ⊎ IsTimeOf t slots
        → IsTimeOf t (s ∷ slots)
    found s busy slots (inl p) = (0, ground arith, busy, sym p)
    found s busy slots (inr q) = later_slot t s slots q

-- The time `gsm_schedule_next` returns is the end time of a scheduled event, and no event is
-- scheduled for an earlier one, in a table whose times have at most a whole second in
-- microseconds.
pub schedule_next_lem :
    (st : State) (t : Timeval)
    → All IsTime (drop 1 st.slots)
    → gsm_schedule_next st ≡ some t
    → NotBefore t (drop 1 st.slots) × IsTimeOf t (drop 1 st.slots)
unfolding gsm_schedule_next
schedule_next_lem st t times e = next_loop-none (drop 1 st.slots) t times e
