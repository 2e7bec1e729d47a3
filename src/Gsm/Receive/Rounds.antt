-- ===== src/Gsm/Receive/Rounds.antt =====
-- The loop of `module_receive` ends: each round takes an octet from what there is to read.
use chan_extra.Prelude.{
  ℕ, zero, suc, ◌+◌, ◌-◌, ◌≤◌, ◌<◌, ◌≡◌, refl, ◌≢◌, ◌⊎◌, inl, inr, ◌||◌, some, List, [], ◌∷◌, ◌==◌,
  Bool-cases, Option-cases, length, take, drop, arith,
}
use chan_extra.Gsm.San.{
  San, Sanbuf, arrays_fit, blank, cr_of, gsm_san, line, nothing, partial, san_add, san_rest,
  skip_of,
}
use chan_extra.Gsm.Module.{Env, Gsm, Result, event, fault, more, quiet}
use chan_extra.Gsm.Start.{Return, spinning}
use chan_extra.Gsm.Receive.{after_line, receive_line, receive_loop}

length-take : (n : ℕ) (xs : List ℕ) → length (take n xs) ≤ n
length-take zero xs = ground arith
length-take (suc n) [] = ground arith
length-take (suc n) (x ∷ xs) = ground (arith, length-take n xs)

take-nil : (n : ℕ) → take {A = ℕ} n [] ≡ []
take-nil zero = refl
take-nil (suc n) = refl

cr_of-nil : (i : ℕ) → cr_of [] ≢ some i
unfolding cr_of
cr_of-nil i e = ground arith

cr_of-other : (c : ℕ) (rest : List ℕ) (i : ℕ) → c ≢ b'\r' → cr_of (c ∷ rest) ≡ some i → 0 < i
unfolding cr_of
cr_of-other c rest i other e = elim (Option-cases (cr_of rest)) [
  | inl none_found ↦ ground (arith, none_found)
  | inr (j, found) ↦ ground (arith, found)
]

cr_of-take :
    (c : ℕ) (text : List ℕ) (n i : ℕ) → c ≢ b'\r' → cr_of (take n (c ∷ text)) ≡ some i → 0 < i
cr_of-take c text zero i other e = absurd (cr_of-nil i e)
cr_of-take c text (suc n) i other e = cr_of-other c (take n text) i other e

-- A line starts after its ends of line, or has an octet.
skip_or_octet :
    (text : List ℕ) (n i : ℕ)
    → cr_of (take (n - skip_of text) (drop (skip_of text) text)) ≡ some i
    → 0 < i + skip_of text
unfolding skip_of
skip_or_octet [] n i e = absurd (cr_of-nil i (rw (take-nil (n - 0)) at e))
skip_or_octet (c ∷ text) n i e = elim (Bool-cases (c == b'\r' || c == b'\n')) [
  | inl ends ↦ ground arith
  | inr other ↦
      let none_skipped : skip_of (c ∷ text) ≡ 0 = ground arith in
      let found = rw none_skipped at e in
      ground (arith, cr_of-take c text (n - 0) i (ground arith) found)
]

san_add-idx : (san : Sanbuf) (input : List ℕ) → (san_add san input).idx ≤ san.idx + length input
unfolding san_add
san_add-idx san input = ground arith

san_rest-idx :
    (r : List ℕ) (san : Sanbuf) (skip : ℕ) (text : List ℕ)
    → (san_rest r san skip).0 ≡ line text
    → (san_rest r san skip).1.idx ≡ 0
unfolding san_rest
san_rest-idx r san skip text e = ground arith

-- What is left to read after a line.
gsm_san-idx :
    (r : List ℕ) (san : Sanbuf) (input text : List ℕ)
    → (gsm_san r san input).0 ≡ line text
    → (gsm_san r san input).1.idx < san.idx + length input
unfolding gsm_san
gsm_san-idx r san input text e = elim (Bool-cases (length input == 0)) [
  | inl empty ↦ ground (arith, empty)
  | inr full ↦
      let added = san_add san input in
      let skip = skip_of added.text in
      elim (Option-cases (cr_of (take (added.idx - skip) (drop skip added.text)))) [
        | inl none_found ↦
            let e' = rw (gsm_san, full, none_found) at e in
            let stop = san_rest-idx r added skip text e' in
            rw (gsm_san, full, none_found) (ground arith)
        | inr (i, found) ↦
            let some_octet = skip_or_octet added.text added.idx i found in
            let bound = san_add-idx san input in rw (gsm_san, full, found) (ground arith)
      ]
]

gsm_san-blank :
    (r : List ℕ) (san : Sanbuf) (input : List ℕ)
    → (gsm_san r san input).0 ≡ blank
    → 0 < length input
unfolding gsm_san
gsm_san-blank r san [] e = ground arith
gsm_san-blank r san (c ∷ input) e = ground arith

San-cases :
    (s : San)
    → (s ≡ nothing)
      ⊎ (((t : List ℕ) × (s ≡ line t)) ⊎ (((t : List ℕ) × (s ≡ partial t)) ⊎ (s ≡ blank)))
San-cases nothing = inl refl
San-cases (line t) = inr (inl (t, refl))
San-cases (partial t) = inr (inr (inl (t, refl)))
San-cases blank = inr (inr (inr refl))

after_line-ends :
    (r : Result) (k : Gsm → Return) → ((h : Gsm) → k h ≢ spinning) → after_line r k ≢ spinning
unfolding after_line
after_line-ends fault k ends e = ground arith
after_line-ends (event g) k ends e = ground arith
after_line-ends (quiet g) k ends e = ground arith
after_line-ends (more g buf) k ends e = ends g e

-- The rounds that the loop is given are enough when they are more than the octets that are there
-- to be read, those in `sanbuf` counted: the loop returns, or the memory is at fault.
pub receive_loop-ends :
    (env : Env) (f i : ℕ) (g : Gsm) (input : List ℕ)
    → g.san.idx + length input < f
    → receive_loop env f i g input ≢ spinning
unfolding receive_loop
receive_loop-ends env zero i g input l = absurd (ground arith)
receive_loop-ends env (suc f) i g input l =
    let found = gsm_san g.at_last_recv g.san input in
    let san' : Sanbuf = record found.1 { idx = 0 } in
    let short = length-take found.1.idx found.1.text in
    elim (Bool-cases (arrays_fit g.san input found.0)) [
      | inl fits ↦ elim (San-cases found.0) [
        | inl e ↦ rw (receive_loop, fits, e) (λ q. ground arith)
        | inr (inl (t, e)) ↦
            let less = gsm_san-idx g.at_last_recv g.san input t e in
            rw (receive_loop, fits, e)
              (after_line-ends (receive_line env (i + 1) (record g { san = san' }) t)
                (λ h.
                  receive_loop env f (i + 1) (record h { san = san' })
                    (take found.1.idx found.1.text))
                (λ h.
                  receive_loop-ends env f (i + 1) (record h { san = san' })
                    (take found.1.idx found.1.text) (omega arith)))
        | inr (inr (inl (t, e))) ↦ rw (receive_loop, fits, e) (λ q. ground arith)
        | inr (inr (inr e)) ↦
            let some_input = gsm_san-blank g.at_last_recv g.san input e in
            rw (receive_loop, fits, e)
              (after_line-ends (receive_line env (i + 1) (record g { san = san' }) [])
                (λ h. receive_loop env f (i + 1) (record h { san = san' }) [])
                (λ h. receive_loop-ends env f (i + 1) (record h { san = san' }) [] (omega arith)))
      ]
      | inr past ↦ rw (receive_loop, past) (λ q. ground arith)
    ]
