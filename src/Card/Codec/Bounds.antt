-- ===== src/Card/Codec/Bounds.antt =====
-- Bounds of the settings of the codec.
use chan_extra.Prelude.{
  ℤ, pos, negsuc, ℕ, ◌+◌, ◌<◌, ◌≡◌, some, List, [], ◌∷◌, arith, length, inl, inr, Option-cases,
}
use chan_extra.Card.Codec.{
  find_value, format_adcgain, format_dacgain, format_sidetone, format_inputgain,
}

-- A place in the table.
find_value_inside : (vs : List ℤ) (v : ℤ) (i j : ℕ) → find_value vs v i ≡ some j → j < i + length vs
unfolding find_value
find_value_inside [] v i j h = absurd (cc)
find_value_inside (pos n ∷ vs) (pos k) i j h =
    ground (arith, find_value_inside vs (pos k) (i + 1) j)
find_value_inside (negsuc n ∷ vs) (negsuc k) i j h =
    ground (arith, find_value_inside vs (negsuc k) (i + 1) j)
find_value_inside (pos n ∷ vs) (negsuc k) i j h =
    ground (arith, find_value_inside vs (negsuc k) (i + 1) j h)
find_value_inside (negsuc n ∷ vs) (pos k) i j h =
    ground (arith, find_value_inside vs (pos k) (i + 1) j h)

adcgain_bound : (v : ℤ) → format_adcgain v < 64
unfolding format_adcgain
adcgain_bound (pos n) = ground arith
adcgain_bound (negsuc n) = ground arith

dacgain_bound : (v : ℤ) → format_dacgain v < 128
unfolding format_dacgain
dacgain_bound (pos n) = ground arith
dacgain_bound (negsuc n) = ground arith

-- The levels of the side tone and of the input, as the code lists them.
abbrev sidetones : List ℤ
sidetones =
    pos 0 ∷ negsuc 2 ∷ negsuc 5 ∷ negsuc 8 ∷ negsuc 11 ∷ negsuc 14 ∷ negsuc 17 ∷ negsuc 20 ∷ []

abbrev inputgains : List ℤ
inputgains = pos 0 ∷ pos 6 ∷ pos 12 ∷ pos 24 ∷ []

sidetone_bound : (v : ℤ) → format_sidetone v < 8
unfolding format_sidetone
sidetone_bound v = elim (Option-cases (find_value sidetones v 0)) [
  | inl absent ↦ rw (format_sidetone, absent) (omega arith)
  | inr (j, e) ↦
      let inside = find_value_inside sidetones v 0 j e in rw (format_sidetone, e) (ground arith)
]

inputgain_bound : (v : ℤ) → format_inputgain v < 4
unfolding format_inputgain
inputgain_bound v = elim (Option-cases (find_value inputgains v 0)) [
  | inl absent ↦ rw (format_inputgain, absent) (omega arith)
  | inr (j, e) ↦
      let inside = find_value_inside inputgains v 0 j e in rw (format_inputgain, e) (ground arith)
]

-- Whatever gain is asked for, the settings fit the fields of the codec's registers: six bits for
-- the gain of the converter to digital, seven for the one to analogue, three for the side tone and
-- two for the input.
codec_bounds :
    (v : ℤ)
    → (format_adcgain v < 64)
      × (format_dacgain v < 128)
      × (format_sidetone v < 8)
      × (format_inputgain v < 4)
codec_bounds v = (adcgain_bound v, dacgain_bound v, sidetone_bound v, inputgain_bound v)
