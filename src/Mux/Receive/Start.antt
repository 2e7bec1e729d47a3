-- ===== src/Mux/Receive/Start.antt =====
-- The start of a frame in the receiver's buffer.
use chan_extra.Prelude.{
  ℕ, zero, suc, ◌≡◌, refl, sym, ap, ◌∙◌, inl, inr, true, false, List, ◌∷◌, arith, ltb, ◌==◌, length,
  get_or, Bool-cases,
}
use chan_extra.Mux.Ring.{Buffer, inc, gsm0710_buffer_length}
use chan_extra.Mux.Ring.View.{IsBuffer, Holds, held_head, length-view}
use chan_extra.Mux.Receive.{f_flag, find_flag, skip_flags}

-- The buffer after the start flag.
abbrev pub started : Buffer → Buffer
started b = record b { flag_found = true; readp = inc b.readp }

find_flag-found : (n : ℕ) (b : Buffer) → b.flag_found ≡ true → find_flag n b ≡ b
unfolding find_flag
find_flag-found zero b h = refl
find_flag-found (suc n) b h = rw h refl

skip_flags-none :
    (n : ℕ) (b : Buffer) → (get_or b.octets b.readp 0 == f_flag) ≡ false → skip_flags n b ≡ b
unfolding skip_flags
skip_flags-none zero b h = refl
skip_flags-none (suc n) b h = elim (Bool-cases (ltb 0 (gsm0710_buffer_length b))) [
  | inl some_left ↦ rw (some_left, h) refl
  | inr none_left ↦ rw none_left refl
]

pub buffer_length-Holds :
    (b : Buffer) (xs : List ℕ)
    → IsBuffer b
    → Holds b b.readp xs
    → gsm0710_buffer_length b ≡ length xs
buffer_length-Holds b xs wf h = sym (length-view b wf) ∙ ap length h.held

skip_flags-one :
    (n : ℕ) (b : Buffer)
    → ltb 0 (gsm0710_buffer_length b) ≡ true
    → get_or b.octets b.readp 0 ≡ f_flag
    → (get_or b.octets (inc b.readp) 0 == f_flag) ≡ false
    → skip_flags (suc n) b ≡ record b { readp = inc b.readp }
unfolding skip_flags
skip_flags-one n b some_left first second =
    rw (some_left, first) (skip_flags-none n (record b { readp = inc b.readp }) second)

find_flag-one :
    (n : ℕ) (b : Buffer)
    → ltb 0 (gsm0710_buffer_length b) ≡ true
    → get_or b.octets b.readp 0 ≡ f_flag
    → b.flag_found ≡ false
    → find_flag (suc n) b ≡ started b
unfolding find_flag
find_flag-one n b some_left first not_found =
    rw (some_left, first, not_found) (find_flag-found n (started b) refl)

-- The start flag is found, and no octet after it is skipped.
pub find_start :
    (b : Buffer) (a : ℕ) (xs : List ℕ)
    → IsBuffer b
    → (a == f_flag) ≡ false
    → Holds b b.readp (f_flag ∷ a ∷ xs)
    → let b1 = find_flag (gsm0710_buffer_length b) b in
      (b1.flag_found ≡ true) × (skip_flags (gsm0710_buffer_length b1) b1 ≡ started b)
find_start b a xs wf ha h = elim (Bool-cases b.flag_found) [
  | inl found ↦
      let e : record b { readp = inc b.readp } ≡ started b =
        ap (λ f. record b { readp = inc b.readp; flag_found = f }) found in
      rw (find_flag-found (gsm0710_buffer_length b) b found, len)
        (found, skip_flags-one (suc (length xs)) b some_left head (rw second ha) ∙ e)
  | inr not_found ↦
      let e : find_flag (suc (suc (length xs))) b ≡ started b =
        find_flag-one (suc (length xs)) b some_left head not_found in
      rw (len, e)
        (refl, skip_flags-none (gsm0710_buffer_length (started b)) (started b) (rw second ha))
]
  where
    head : get_or b.octets b.readp 0 ≡ f_flag
    head = (held_head b b.readp f_flag (a ∷ xs) wf h).0

    rest : Holds b (inc b.readp) (a ∷ xs)
    rest = (held_head b b.readp f_flag (a ∷ xs) wf h).1

    second : get_or b.octets (inc b.readp) 0 ≡ a
    second = (held_head b (inc b.readp) a xs wf rest).0

    len : gsm0710_buffer_length b ≡ suc (suc (length xs))
    len = buffer_length-Holds b (f_flag ∷ a ∷ xs) wf h

    some_left : ltb 0 (gsm0710_buffer_length b) ≡ true
    some_left = ground (arith, len)
