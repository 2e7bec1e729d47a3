-- ===== src/Gsm/San.antt =====
-- The lines of what a module sends: `gsm_san` of src/libgsmat/gsm.c, on `sanbuf` and `sanidx`.
use chan_extra.Prelude.{
  ℕ, ◌+◌, ◌-◌, Bool, not, ◌&&◌, ◌||◌, Option, none, some, List, [], ◌∷◌, ◌++◌, ltb, leb, ◌==◌,
  if◌then◌else◌, length, take, drop, get_or,
}
use chan_extra.Config.Commands.{codes}
use chan_extra.Gsm.Text.{gsm_compare}

-- The buffer, of 4096 characters, as the text in it, and the index. The text may be longer than
-- the index says: the callers set the index to 0 and read the text.
pub record Sanbuf : Type 0 where
  pub text : List ℕ
  pub idx : ℕ

-- What the function returns and writes to `out`: 0, a line and its length, -1 with the beginning of
-- a line, -3 with the empty text.
pub data San : Type 0 where
  nothing : San
  line : List ℕ → San
  partial : List ℕ → San
  blank : San

-- The leading octets that end lines.
unfoldable pub skip_of : List ℕ → ℕ
skip_of [] = 0
skip_of (c ∷ text) = let rest = skip_of text in if c == b'\r' || c == b'\n' then rest + 1 else 0

-- `memchr` for `\r`: how far it is.
unfoldable pub cr_of : List ℕ → Option ℕ
cr_of [] = none
cr_of (c ∷ text) =
    let rest = cr_of text in
    if c == b'\r' then some 0 else elim rest [ none ↦ none | some i ↦ some (i + 1) ]

-- What is in the buffer once the input has been added, where there is room.
unfoldable pub san_add : Sanbuf → List ℕ → Sanbuf
san_add san input =
    if ltb (san.idx + length input) 4096
    then record { text = take san.idx san.text ++ input; idx = san.idx + length input }
    else san

-- The text is `\r\n` and its like only, or a prompt, or the beginning of a line.
unfoldable pub san_rest : List ℕ → Sanbuf → ℕ → San × Sanbuf
unfolding gsm_compare
san_rest at_last_recv san skip =
    let rest = drop skip san.text in
    if san.idx - skip == 2
      && (get_or san.text (san.idx - 2) 0 == b'>' && get_or san.text (san.idx - 1) 0 == b' ')
    then (line (codes "> "), record san { idx = 0 })
    else if san.idx - skip == 1 && get_or san.text (san.idx - 1) 0 == b'>'
    then (line (codes ">"), record san { idx = 0 })
    else if length rest == 0
    then (if skip == 4 && gsm_compare at_last_recv (codes "+CMT: \"")
        then (blank, san)
        else (nothing, san))
    else (partial (take (san.idx - skip) rest), san)

-- The input's length is the argument `len`, which is not negative.
unfoldable pub gsm_san : List ℕ → Sanbuf → List ℕ → San × Sanbuf
gsm_san at_last_recv san input =
    if length input == 0
    then (nothing, san)
    else let san' = san_add san input in
      let skip = skip_of san'.text in
      elim (cr_of (take (san'.idx - skip) (drop skip san'.text))) [
        | none ↦ san_rest at_last_recv san' skip
        | some i ↦ (
          line (take i (drop skip san'.text)),
          record { text = drop (skip + i) san'.text; idx = san'.idx - (i + skip) },
        )
      ]

-- What is written to `out`, less its NUL.
unfoldable pub out_text : San → List ℕ
out_text nothing = []
out_text (line text) = text
out_text (partial text) = text
out_text blank = []

-- Whether a round of the callers stays within their arrays `receivebuf`, from which the input is
-- read when it is added, and `buf`, which `out` is: both have 1024 octets.
unfoldable pub arrays_fit : Sanbuf → List ℕ → San → Bool
unfolding out_text
arrays_fit san input result =
    (leb (length input) 1024 || not (ltb (san.idx + length input) 4096))
    && ltb (length (out_text result)) 1024
