-- ===== src/Card/Find.antt =====
-- The card and the span of a terminal: `ttygsm_get_cardno` and `ttygsm_get_span` of
-- src/opvxg4xx/base.c.
use chan_extra.Prelude.{ℕ, ◌+◌, ◌==◌, Option, none, some, List, [], ◌∷◌, if◌then◌else◌, bind}

-- `gsm_tty_table` of a card, up to its number of spans: the channels of the terminals.
abbrev pub Table : Type 0
Table = List (Option ℕ)

unfoldable pub find_span : Table → ℕ → ℕ → Option ℕ
find_span [] channel j = none
find_span (none ∷ table) channel j = find_span table channel (j + 1)
find_span (some c ∷ table) channel j =
    let rest = find_span table channel (j + 1) in if c == channel then some j else rest

-- The card and the span, in `g_g4`, of the cards from `i` on.
unfoldable pub find_card : List (Option Table) → ℕ → ℕ → Option (ℕ × ℕ)
unfolding find_span
find_card [] channel i = none
find_card (none ∷ cards) channel i = find_card cards channel (i + 1)
find_card (some table ∷ cards) channel i =
    let rest = find_card cards channel (i + 1) in
    elim (find_span table channel 0) [ none ↦ rest | some j ↦ some (i, j) ]

-- `none` is -1.
unfoldable pub ttygsm_get_cardno : List (Option Table) → ℕ → Option ℕ
unfolding find_card
ttygsm_get_cardno cards channel = bind (find_card cards channel 0) (λ f. some f.0)

unfoldable pub ttygsm_get_span : List (Option Table) → ℕ → Option ℕ
unfolding find_card
ttygsm_get_span cards channel = bind (find_card cards channel 0) (λ f. some f.1)
