-- ===== src/Interface/Search.antt =====
-- The search for an interface, round by round.
use mathlib.Core.Path.{subst}
use chan_extra.Prelude.{
  ℕ, zero, suc, ◌≤◌, ◌≡◌, refl, sym, ap, ◌∙◌, ◌⊎◌, inl, inr, Bool, true, false, not, ◌&&◌, Option,
  none, some, List, [], ◌∷◌, ◌++◌, arith, length, ◌==◌, ==_self, if◌then◌else◌, All, Bool-cases,
  equal, negsuc,
}
use chan_extra.Interface.Route.{IsRoute}
use chan_extra.Interface.Request.{
  Driver, Env, Matched, Outcome, StartingPoint, available, copied, duplicate_pseudo, go_on,
  is_group_or_channel_match, make_channel, mark, search_loop, take_interface,
}

-- Whether the search takes an interface.
abbrev pub suits : Driver → StartingPoint → ℕ → Bool
suits d start p =
    (is_group_or_channel_match d start p (record { by_group = false; by_channel = false })).0
    && available d p

-- What has been noted by then makes no difference to it.
match-any :
    (d : Driver) (start : StartingPoint) (p : ℕ) (m m' : Matched)
    → (is_group_or_channel_match d start p m).0 ≡ (is_group_or_channel_match d start p m').0
unfolding is_group_or_channel_match
match-any d start p m m' = ground arith

suits-mark :
    (rr : Option ℕ) (d : Driver) (start : StartingPoint) (p q : ℕ)
    → suits (mark rr d q) start p ≡ suits d start p
unfolding is_group_or_channel_match available
suits-mark none d start p q = refl
suits-mark (some x) d start p q = refl

abbrev made_or_not : Env → ℕ → Outcome
made_or_not env p = if env.makes p then Outcome.made p else Outcome.no_channel

-- What comes of the interface that is taken: nothing when its D-channel is down; a channel for it,
-- or for the copy where it is the pseudo interface, if there is memory.
abbrev pub taken : Env → Driver → ℕ → Outcome
taken env d p =
    if (d.pvt p).gsm && not (d.pvt p).dchan_up
    then Outcome.down
    else if equal (d.links.channel p) (negsuc 1)
    then elim env.fresh [ none ↦ Outcome.no_copy | some r ↦ made_or_not env r ]
    else made_or_not env p

make_outcome :
    (env : Env) (d : Driver) (start : StartingPoint) (p : ℕ)
    → (make_channel env d start p).1 ≡ made_or_not env p
unfolding make_channel
make_outcome env d start p = elim (Bool-cases (env.makes p)) [
  | inl can ↦ rw (make_channel, can) refl
  | inr cannot ↦ rw (make_channel, cannot) refl
]

copy_outcome :
    (env : Env) (d : Driver) (start : StartingPoint) (p : ℕ) (fresh : Option ℕ)
    → env.fresh ≡ fresh
    → ◌≡◌ {A = Outcome}
        (elim (duplicate_pseudo env d p) as (λ _. Driver × Outcome) [
          | none ↦ (d, Outcome.no_copy)
          | some copy ↦ make_channel env copy.0 start copy.1
        ]).1
        (elim fresh [ none ↦ Outcome.no_copy | some r ↦ made_or_not env r ])
unfolding duplicate_pseudo
copy_outcome env d start p none h = rw (duplicate_pseudo, h) refl
copy_outcome env d start p (some r) h =
    rw (duplicate_pseudo, h) (make_outcome env (copied env d p r) start r)

take_outcome :
    (env : Env) (d : Driver) (start : StartingPoint) (p : ℕ)
    → (take_interface env d start p).1 ≡ taken env d p
unfolding take_interface
take_outcome env d start p = elim (Bool-cases ((d.pvt p).gsm && not (d.pvt p).dchan_up)) [
  | inl is_down ↦ rw (take_interface, is_down) refl
  | inr up ↦ elim (Bool-cases (equal (d.links.channel p) (negsuc 1))) [
    | inl pseudo ↦ rw (take_interface, up, pseudo) (copy_outcome env d start p env.fresh refl)
    | inr other ↦ rw (take_interface, up, other) (make_outcome env d start p)
  ]
]

-- The search takes the first of these that suits it, and none when none does.
abbrev pub IsAnswer : Env → Driver → StartingPoint → List ℕ → Outcome → Type 0
IsAnswer env d start xs o =
    (All (λ x. suits d start x ≡ false) xs × (o ≡ Outcome.refused))
    ⊎ ((before : List ℕ) × (x : ℕ) × (behind : List ℕ) × (xs ≡ before ++ (x ∷ behind))
        × All (λ y. suits d start y ≡ false) before
        × (suits d start x ≡ true)
        × (o ≡ taken env d x))

IsAnswer-skip :
    (env : Env) (d : Driver) (start : StartingPoint) (w : ℕ) (ws : List ℕ) (o : Outcome)
    → suits d start w ≡ false
    → IsAnswer env d start ws o
    → IsAnswer env d start (w ∷ ws) o
IsAnswer-skip env d start w ws o h (inl (none_suits, e)) = inl ((h, none_suits), e)
IsAnswer-skip env d start w ws o h (inr (before, x, behind, joined, skipped, suited, e)) =
    inr (w ∷ before, x, behind, ap (λ l. w ∷ l) joined, (h, skipped), suited, e)

IsAnswer-mark :
    (rr : Option ℕ) (env : Env) (d : Driver) (start : StartingPoint) (p : ℕ) (ws : List ℕ)
    (o : Outcome)
    → IsAnswer env (mark rr d p) start ws o
    → IsAnswer env d start ws o
unfolding is_group_or_channel_match available
IsAnswer-mark none env d start p ws o h = h
IsAnswer-mark (some x) env d start p ws o h = h

taken-mark :
    (rr : Option ℕ) (env : Env) (d : Driver) (p q : ℕ) → taken env (mark rr d q) p ≡ taken env d p
taken-mark none env d p q = refl
taken-mark (some x) env d p q = refl

go_on-mark :
    (rr : Option ℕ) (d : Driver) (backwards : Bool) (p q : ℕ)
    → go_on (mark rr d q).links backwards p ≡ go_on d.links backwards p
go_on-mark none d backwards p q = refl
go_on-mark (some x) d backwards p q = refl

-- A round of the loop, where the interface is taken, where it is not and is the last, and where it
-- is not and the search goes on.
round_take :
    (n : ℕ) (env : Env) (d : Driver) (start : StartingPoint) (exit p : ℕ) (m : Matched)
    → suits d start p ≡ true
    → (search_loop (suc n) env d start exit (some p) m).2 ≡ taken env d p
unfolding search_loop
round_take n env d start exit p m h =
    let d1 = mark start.rr d p in
    let suited : ((is_group_or_channel_match d1 start p m).0 && available d1 p) ≡ true =
      ap (λ b. b && available d1 p)
        (match-any d1 start p m (record { by_group = false; by_channel = false }))
      ∙ suits-mark start.rr d start p p
      ∙ h in
    rw (search_loop, suited) (take_outcome env d1 start p ∙ taken-mark start.rr env d p p)

-- What the search has noted after an interface.
abbrev noted_by : Driver → StartingPoint → ℕ → Matched → Matched
noted_by d start p m = (is_group_or_channel_match (mark start.rr d p) start p m).1

round_last :
    (n : ℕ) (env : Env) (d : Driver) (start : StartingPoint) (exit p : ℕ) (m : Matched)
    → suits d start p ≡ false
    → go_on d.links start.backwards p ≡ some exit
    → (search_loop (suc n) env d start exit (some p) m).2 ≡ Outcome.refused
unfolding search_loop
round_last n env d start exit p m h next =
    let d1 = mark start.rr d p in
    let unsuited : ((is_group_or_channel_match d1 start p m).0 && available d1 p) ≡ false =
      ap (λ b. b && available d1 p)
        (match-any d1 start p m (record { by_group = false; by_channel = false }))
      ∙ suits-mark start.rr d start p p
      ∙ h in
    let onward = go_on-mark start.rr d start.backwards p p ∙ next in
    rw (search_loop, unsuited, onward, ==_self exit) refl

round_on :
    (n : ℕ) (env : Env) (d : Driver) (start : StartingPoint) (exit p q : ℕ) (m : Matched)
    → suits d start p ≡ false
    → go_on d.links start.backwards p ≡ some q
    → (q == exit) ≡ false
    → search_loop (suc n) env d start exit (some p) m
      ≡ search_loop n env (mark start.rr d p) start exit (some q) (noted_by d start p m)
unfolding search_loop
round_on n env d start exit p q m h next other =
    let d1 = mark start.rr d p in
    let unsuited : ((is_group_or_channel_match d1 start p m).0 && available d1 p) ≡ false =
      ap (λ b. b && available d1 p)
        (match-any d1 start p m (record { by_group = false; by_channel = false }))
      ∙ suits-mark start.rr d start p p
      ∙ h in
    let onward = go_on-mark start.rr d start.backwards p p ∙ next in
    rw (search_loop, unsuited, onward, other) refl

IsRoute-mark :
    (rr : Option ℕ) (d : Driver) (backwards : Bool) (exit p : ℕ) (ws : List ℕ)
    → IsRoute (go_on d.links backwards) exit ws
    → IsRoute (go_on (mark rr d p).links backwards) exit ws
IsRoute-mark none d backwards exit p ws h = h
IsRoute-mark (some x) d backwards exit p ws h = h

-- From an interface on, along the way round the list.
pub search_loop-IsAnswer :
    (n : ℕ) (env : Env) (d : Driver) (start : StartingPoint) (exit p : ℕ) (ws : List ℕ)
    (m : Matched)
    → IsRoute (go_on d.links start.backwards) exit (p ∷ ws)
    → length (p ∷ ws) ≤ n
    → IsAnswer env d start (p ∷ ws) (search_loop n env d start exit (some p) m).2
search_loop-IsAnswer zero env d start exit p ws m route enough = absurd (omega arith)
search_loop-IsAnswer (suc n) env d start exit p [] m route enough =
    elim (Bool-cases (suits d start p)) [
      | inl suited ↦ inr ([], p, [], refl, tt, suited, round_take n env d start exit p m suited)
      | inr skipped ↦ inl ((skipped, tt), round_last n env d start exit p m skipped route.0)
    ]
search_loop-IsAnswer (suc n) env d start exit p (q ∷ ws) m route enough =
    elim (Bool-cases (suits d start p)) [
      | inl suited ↦ inr ([], p, q ∷ ws, refl, tt, suited, round_take n env d start exit p m suited)
      | inr skipped ↦
          let ih =
            search_loop-IsAnswer n env (mark start.rr d p) start exit q ws (noted_by d start p m)
              (IsRoute-mark start.rr d start.backwards exit p (q ∷ ws) route.2) (omega arith) in
          subst (λ r. IsAnswer env d start (p ∷ q ∷ ws) r.2)
            (sym (round_on n env d start exit p q m skipped route.0 route.1.0))
            (IsAnswer-skip env d start p (q ∷ ws) _ skipped
              (IsAnswer-mark start.rr env d start p (q ∷ ws) _ ih))
    ]
