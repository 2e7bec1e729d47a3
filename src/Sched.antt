-- ===== src/Sched.antt =====
-- The scheduler: src/libgsmat/gsmsched.c, on `struct gsm_sched` of src/libgsmat/libgsmat.h. Time
-- comes in as an argument, and so do the callbacks.
pub mod Table
pub mod Time
pub mod Run
mod Tests
use chan_extra.Prelude.{
  ℕ, zero, suc, ◌+◌, ◌-◌, ◌*◌, ◌/◌, ◌%◌, Bool, true, false, not, ◌&&◌, ◌||◌, Option, none, some,
  List, [], ◌∷◌, ltb, leb, ◌==◌, if◌then◌else◌, get_or, set, length, drop,
}

-- `struct timeval`.
pub record Timeval : Type 0 where
  pub sec : ℕ
  pub usec : ℕ

-- A slot without a callback is free. Functions and the data for them are known by numbers.
pub record Slot : Type 0 where
  pub when : Timeval
  pub callback : Option ℕ
  pub arg : ℕ

-- The table, of `MAX_SCHED` slots of which the first is never used, the file's `maxsched`, and
-- the flag by which a callback reports an event.
pub record State : Type 0 where
  pub slots : List Slot
  pub maxsched : ℕ
  pub schedev : Bool

unfoldable pub is_free : Slot → Bool
is_free s = elim s.callback [ none ↦ true | some f ↦ false ]

abbrev pub empty_slot : Slot
empty_slot = record { when = record { sec = 0; usec = 0 }; callback = none; arg = 0 }

-- The search over `gsm_sched[x..]`: the first free slot, `none` at the end of the table.
unfoldable pub find_free : List Slot → ℕ → Option ℕ
unfolding is_free
find_free [] x = none
find_free (s ∷ slots) x = if is_free s then some x else find_free slots (x + 1)

-- `true` is the return of 0.
unfoldable pub gsm_schedule_check : State → Bool
unfolding find_free
gsm_schedule_check st = elim (find_free (drop 1 st.slots) 1) [ none ↦ false | some x ↦ true ]

-- The end time. A delay is not negative.
unfoldable pub deadline : Timeval → ℕ → Timeval
deadline now ms =
    let sec = now.sec + ms / 1000 in
    let usec = now.usec + ms % 1000 * 1000 in
    if ltb 1000000 usec
    then record { sec = sec + 1; usec = usec - 1000000 }
    else record { sec = sec; usec = usec }

-- The schedule id, `none` for -1.
unfoldable pub gsm_schedule_event : State → Timeval → ℕ → ℕ → ℕ → State × Option ℕ
unfolding find_free deadline
gsm_schedule_event st now ms function arg = elim (find_free (drop 1 st.slots) 1) [
  | none ↦ (st, none)
  | some x ↦ (
    record st {
      slots =
          set st.slots x (record { when = deadline now ms; callback = some function; arg = arg });
      maxsched = if ltb st.maxsched x then x else st.maxsched;
    },
    some x,
  )
]

-- Whether the first time is after the second.
unfoldable pub after : Timeval → Timeval → Bool
after a b = ltb b.sec a.sec || (a.sec == b.sec && ltb b.usec a.usec)

unfoldable pub next_loop : List Slot → Option Timeval → Option Timeval
unfolding is_free after
next_loop [] closest = closest
next_loop (s ∷ slots) closest = next_loop slots (
    if not (is_free s) && elim closest [ none ↦ true | some c ↦ after c s.when ]
    then some s.when
    else closest)

-- The earliest end time, `none` for NULL.
unfoldable pub gsm_schedule_next : State → Option Timeval
unfolding next_loop
gsm_schedule_next st = next_loop (drop 1 st.slots) none

-- Whether a slot's time has come.
unfoldable pub due : Slot → Timeval → Bool
unfolding is_free
due s now =
    not (is_free s)
    && (ltb s.when.sec now.sec || (s.when.sec == now.sec && leb s.when.usec now.usec))

module _ (call : ℕ → ℕ → State → State) where
  -- One due slot: it is freed before its callback is made.
  unfoldable pub fire : State → ℕ → State
  fire st x =
      let s = get_or st.slots x empty_slot in
      let st' = record st {
        schedev = false;
        slots = set st.slots x (record s { callback = none; arg = 0 });
      } in
      elim s.callback [ none ↦ st | some f ↦ call f s.arg st' ]

  -- The loop with `n` rounds left, and whether it returns an event.
  unfoldable pub run_loop : ℕ → ℕ → State → Timeval → State × Bool
  unfolding due fire
  run_loop zero x st now = (st, false)
  run_loop (suc n) x st now =
      let st' = fire st x in
      let fired = run_loop n (x + 1) st' now in
      let passed = run_loop n (x + 1) st now in
      if due (get_or st.slots x empty_slot) now
      then (if st'.schedev then (st', true) else fired)
      else passed

  unfoldable pub gsm_schedule_run : State → Timeval → State × Bool
  unfolding run_loop
  gsm_schedule_run st now = run_loop (length st.slots - 1) 1 st now

-- An id that is not in the table is reported and written to all the same: `none`. A negative one,
-- which is treated alike, is not given here.
unfoldable pub gsm_schedule_del : State → ℕ → Option State
gsm_schedule_del st id =
    if ltb id (length st.slots)
    then some (record st {
      slots = set st.slots id (record (get_or st.slots id empty_slot) { callback = none });
    })
    else none
