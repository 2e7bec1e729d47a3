-- ===== src/Interface/Answer.antt =====
-- What a request for a channel comes to.
use chan_extra.Prelude.{ℕ, ◌<◌, ◌≡◌, Option, some, List, ◌∷◌, ◌++◌}
use chan_extra.Interface.Request.{
  Token, channel, group_backward, group_forward, round_backward, round_forward,
}

-- Where an interface stands in the list.
pub record Place (xs : List ℕ) (p : ℕ) : Type 0 where
  pub front : List ℕ
  pub back : List ℕ
  pub joined : xs ≡ front ++ (p ∷ back)

-- The round robin has an entry for the group.
abbrev pub IsInRange : Token → Type 0
IsInRange (group_forward x) = Unit
IsInRange (group_backward x) = Unit
IsInRange (round_forward x) = x < 32
IsInRange (round_backward x) = x < 32
IsInRange (channel x) = Unit

-- An interface of the list, for a pointer.
abbrev Stands : List ℕ → Option ℕ → Type 0
Stands xs o = (p : ℕ) × (o ≡ some p) × Place xs p
