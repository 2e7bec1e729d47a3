-- ===== src/Interface/Destroy.antt =====
-- Interfaces that are given up: `destroy_extra_pvt`, less the freeing of memory, `destroy_channel` and
-- `destroy_all_channels` of src/chan_extra/src/chan_extra.c.
use chan_extra.Prelude.{
  All, arith, inl, inr, Bool-cases, refl, ap, ◌+◌, ◌<◌, ◌==◌, Option, length, ◌≡◌, ◌≤◌, ◌∙◌, ℕ,
  zero, suc, ◌&&◌, not, Bool, true, false, none, some, List, [], ◌∷◌, if◌then◌else◌,
}
use chan_extra.Interface.Links.{Links, extra_iflist_extract, or_else, write_at}
use chan_extra.Interface.Chain.{IsApart, IsListed, write_other}
use chan_extra.Interface.Extract.{iflist_extract-IsListed}

-- A neighbour in the list that is in the same span.
in_span : Links → ℕ → Option ℕ → Option ℕ
in_span st cur none = none
in_span st cur (some k) = if st.span k == st.span cur then some k else none

unfoldable pub find_next_iface_in_span : Links → ℕ → Option ℕ
unfolding in_span
find_next_iface_in_span st cur =
    or_else (in_span st cur (st.next cur)) (in_span st cur (st.prev cur))

-- Another interface of the span is the one that manages its alarms.
unfoldable pub hand_over : Links → ℕ → ℕ → Bool
unfolding find_next_iface_in_span
hand_over st p =
    if st.manages_span_alarms p
    then write_at st.manages_span_alarms (find_next_iface_in_span st p) true
    else st.manages_span_alarms

unfoldable pub destroy_extra_pvt : Links → ℕ → Links
unfolding hand_over extra_iflist_extract
destroy_extra_pvt st p =
    let st1 : Links = record st { manages_span_alarms = hand_over st p } in
    if st1.listed p then extra_iflist_extract st1 p else st1

-- `owned` tells whether the interface, or one of its subchannels, has an owner.
unfoldable pub destroy_channel : Links → ℕ → Bool → Bool → Links
unfolding destroy_extra_pvt
destroy_channel st p owned now = if not now && owned then st else destroy_extra_pvt st p

-- The wait for the restarts: `pending` is what `num_restart_pending` is at the looks at it, from
-- the look of number `i` on, of which there are `f` more. It tells whether the wait is over by then.
unfoldable pub wait_restarts : ℕ → (ℕ → ℕ) → ℕ → Bool
wait_restarts zero pending i = false
wait_restarts (suc f) pending i =
    let rest = wait_restarts f pending (i + 1) in if pending i == 0 then true else rest

-- The loop after it, with as many rounds as interfaces.
unfoldable pub destroy_loop : ℕ → Links → Links
unfolding destroy_extra_pvt
destroy_loop zero st = st
destroy_loop (suc n) st = elim st.iflist [
  | none ↦ st
  | some p ↦ destroy_loop n (destroy_extra_pvt st p)
]

-- `none`: it still waits after `f` looks.
unfoldable pub destroy_all_channels : ℕ → (ℕ → ℕ) → ℕ → Links → Option Links
unfolding wait_restarts destroy_loop
destroy_all_channels f pending n st =
    if wait_restarts f pending 0 then some (destroy_loop n st) else none

IsListed-managed :
    (st : Links) (managed : ℕ → Bool) (xs : List ℕ)
    → IsListed st xs
    → IsListed (record st { manages_span_alarms = managed }) xs
IsListed-managed st managed xs h = record {
  chained = h.chained;
  head = h.head;
  tail = h.tail;
  distinct = h.distinct;
}

zero_right : (j : ℕ) → j + 0 ≡ j
zero_right j = omega arith

zero_left : (j : ℕ) → 0 + j ≡ j
zero_left j = omega arith

next_look : (j k : ℕ) → j + 1 + k ≡ j + suc k
next_look j k = omega arith

still_marked :
    (st : Links) (r : ℕ) (xs : List ℕ)
    → IsApart r xs
    → All (λ x. st.listed x ≡ true) xs
    → All (λ x. (extra_iflist_extract st r).listed x ≡ true) xs
unfolding extra_iflist_extract
still_marked st r [] apart marked = tt
still_marked st r (x ∷ xs) apart marked =
    (write_other st.listed r x false apart.0 ∙ marked.0, still_marked st r xs apart.1 marked.1)

destroy_loop-IsListed :
    (n : ℕ) (st : Links) (xs : List ℕ)
    → IsListed st xs
    → All (λ x. st.listed x ≡ true) xs
    → length xs ≤ n
    → IsListed (destroy_loop n st) []
unfolding destroy_loop
destroy_loop-IsListed zero st [] listed marked enough = listed
destroy_loop-IsListed zero st (x ∷ xs) listed marked enough = absurd (omega arith)
destroy_loop-IsListed (suc n) st [] listed marked enough = rw (destroy_loop, listed.head) listed
destroy_loop-IsListed (suc n) st (x ∷ xs) listed marked enough =
    let st1 : Links = record st { manages_span_alarms = hand_over st x } in
    rw (destroy_loop, listed.head, destroy_extra_pvt, marked.0)
      (destroy_loop-IsListed n (extra_iflist_extract st1 x) xs
        (iflist_extract-IsListed st1 x [] xs
          (IsListed-managed st (hand_over st x) (x ∷ xs) listed)).0
        (still_marked st1 x xs listed.distinct.0 marked.1) (omega arith))

wait_restarts-ends :
    (f : ℕ) (pending : ℕ → ℕ) (j k : ℕ)
    → pending (j + k) ≡ 0
    → k < f
    → wait_restarts f pending j ≡ true
unfolding wait_restarts
wait_restarts-ends zero pending j k over within = absurd (omega arith)
wait_restarts-ends (suc f) pending j zero over within =
    let now : (pending j == 0) ≡ true = ground (arith, rw (zero_right j) at over) in
    rw (wait_restarts, now) refl
wait_restarts-ends (suc f) pending j (suc k) over within = elim (Bool-cases (pending j == 0)) [
  | inl e ↦ rw (wait_restarts, e) refl
  | inr e ↦
      rw (wait_restarts, e)
        (wait_restarts-ends f pending (j + 1) k (ap pending (next_look j k) ∙ over) (omega arith))
]

-- Where no restart is pending at one of the looks that are made, the wait is over and the function
-- comes to its end; one interface after the other is taken out, until the list is empty, where it is
-- listed, its interfaces are marked as being in it, and there are as many rounds as interfaces.
pub destroy_all_channels-IsListed :
    (f : ℕ) (pending : ℕ → ℕ) (i n : ℕ) (st : Links) (xs : List ℕ)
    → pending i ≡ 0
    → i < f
    → IsListed st xs
    → All (λ x. st.listed x ≡ true) xs
    → length xs ≤ n
    → (st' : Links) × (destroy_all_channels f pending n st ≡ some st') × IsListed st' []
unfolding destroy_all_channels
destroy_all_channels-IsListed f pending i n st xs over within listed marked enough = (
  destroy_loop n st,
  rw
      (
        destroy_all_channels,
        wait_restarts-ends f pending 0 i (ap pending (zero_left i) ∙ over) within,
      )
      refl,
  destroy_loop-IsListed n st xs listed marked enough,
)
