-- ===== src/Gsm/Receive/Lines.antt =====
-- What a module sends, each line between two ends of line, and what is done with each line.
use chan_extra.Prelude.{
  ap, ◌∙◌, true, ltb, leb, ℕ, zero, suc, ◌+◌, ◌-◌, ◌≤◌, ◌<◌, ◌≡◌, refl, sym, ◌≢◌, ◌⊎◌, inl, inr,
  false, some, List, [], ◌∷◌, ◌++◌, append_assoc, ◌==◌, lt→ltb, length, length-append, take,
  drop-append, drop-drop, take-append, take_all, All-append, All, arith,
}
use chan_extra.Gsm.San.{
  Sanbuf, arrays_fit, cr_of, gsm_san, line, out_text, san_add, san_rest, skip_of,
}
use chan_extra.Gsm.Module.{Env, Gsm, Result, event, fault, more, quiet}
use chan_extra.Gsm.Call.{gsm_getcall}
use chan_extra.Gsm.Start.{Return, returned}
use chan_extra.Gsm.Receive.{after_line, module_receive, receive_line, receive_loop}

-- An octet of a line's end, and one of a line.
abbrev pub IsEnd : ℕ → Type 0
IsEnd c = (c ≡ b'\r') ⊎ (c ≡ b'\n')

abbrev pub IsLineOctet : ℕ → Type 0
IsLineOctet c = (c ≢ b'\r') × (c ≢ b'\n')

-- A line has some octet.
abbrev pub IsLine : List ℕ → Type 0
IsLine l = (0 < length l) × All IsLineOctet l

-- What a module sends for a list of lines.
abbrev pub framed : List (List ℕ) → List ℕ
framed [] = []
framed (l ∷ ls) = b'\r' ∷ b'\n' ∷ (l ++ (b'\r' ∷ b'\n' ∷ framed ls))

skip_of-append :
    (ends l rest : List ℕ) → All IsEnd ends → IsLine l → skip_of (ends ++ (l ++ rest)) ≡ length ends
unfolding skip_of
skip_of-append [] [] rest h h' = absurd (ground (arith, h'.0))
skip_of-append [] (c ∷ l) rest h h' = ground (arith, h'.1)
skip_of-append (c ∷ ends) l rest h h' = ground (arith, skip_of-append ends l rest h.1 h', h.0)

cr_of-append : (l rest : List ℕ) → All IsLineOctet l → cr_of (l ++ (b'\r' ∷ rest)) ≡ some (length l)
unfolding cr_of
cr_of-append [] rest h = refl
cr_of-append (c ∷ l) rest h = ground (arith, cr_of-append l rest h.1, h.0)

-- What `sanbuf` has, with what comes in behind it.
san_add_whole :
    (san : Sanbuf) (input whole : List ℕ)
    → length (take san.idx san.text) ≡ san.idx
    → take san.idx san.text ++ input ≡ whole
    → length whole < 4096
    → san_add san input ≡ record { text = whole; idx = length whole }
unfolding san_add
san_add_whole san input whole held e small =
    let size : san.idx + length input ≡ length whole =
      ground (arith, length-append (take san.idx san.text) input, ap length e) in
    rw (san_add, size, lt→ltb (length whole) 4096 small, e) refl

gsm_san-line :
    (r : List ℕ) (san : Sanbuf) (input ends l rest : List ℕ)
    → 0 < length input
    → length (take san.idx san.text) ≡ san.idx
    → take san.idx san.text ++ input ≡ ends ++ (l ++ (b'\r' ∷ rest))
    → All IsEnd ends
    → IsLine l
    → length (ends ++ (l ++ (b'\r' ∷ rest))) < 4096
    → gsm_san r san input ≡ (line l, record { text = b'\r' ∷ rest; idx = length (b'\r' ∷ rest) })
unfolding gsm_san
gsm_san-line r san input ends l rest some_input held e h h' small =
    let whole : List ℕ = ends ++ (l ++ (b'\r' ∷ rest)) in
    let size : length whole ≡ length ends + (length l + suc (length rest)) =
      ground (arith, length-append ends (l ++ (b'\r' ∷ rest)), length-append l (b'\r' ∷ rest)) in
    let there : (length input == 0) ≡ false = ground arith in
    let behind : take (length whole - length ends) (l ++ (b'\r' ∷ rest)) ≡ l ++ (b'\r' ∷ rest) =
      take_all (length whole - length ends) (l ++ (b'\r' ∷ rest))
        (ground (arith, length-append l (b'\r' ∷ rest))) in
    let left : length whole - (length l + length ends) ≡ suc (length rest) = ground arith in
    let added = san_add_whole san input whole held e small in
    rw
      (
        gsm_san,
        there,
        added,
        skip_of-append ends l (b'\r' ∷ rest) h h',
        drop-append ends (l ++ (b'\r' ∷ rest)),
        behind,
        cr_of-append l rest h'.1,
        added,
        skip_of-append ends l (b'\r' ∷ rest) h h',
        drop-append ends (l ++ (b'\r' ∷ rest)),
        take-append l (b'\r' ∷ rest),
        ← drop-drop (length ends) (length l) whole,
        drop-append ends (l ++ (b'\r' ∷ rest)),
        drop-append l (b'\r' ∷ rest),
        left,
      )
      refl

-- What the loop has in `sanbuf` while it looks at a line, with these lines behind it.
abbrev pub ahead : List (List ℕ) → Sanbuf
ahead ls = record { text = b'\r' ∷ b'\n' ∷ framed ls; idx = 0 }

-- The lines one after the other, from the number `i` on, each as `receive_line` answers to it: an
-- event, or a return without one, ends them; the last end of line stays in `sanbuf`.
abbrev pub each_line : Env → ℕ → Gsm → List (List ℕ) → Return
each_line env i g [] =
    returned false (record g { san = record { text = b'\r' ∷ b'\n' ∷ []; idx = 2 } })
each_line env i g (l ∷ ls) =
    after_line (receive_line env (i + 1) (record g { san = ahead ls }) l)
      (λ h. each_line env (i + 1) (record h { san = ahead ls }) ls)

same_after :
    (r : Result) (k k' : Gsm → Return) → ((h : Gsm) → k h ≡ k' h) → after_line r k ≡ after_line r k'
unfolding after_line
same_after fault k k' same = refl
same_after (event g) k k' same = refl
same_after (quiet g) k k' same = refl
same_after (more g buf) k k' same = same g

-- A round of the loop, on a line.
line_round :
    (env : Env) (f i : ℕ) (g : Gsm) (input ends l : List ℕ) (ls : List (List ℕ))
    → 0 < length input
    → length (take g.san.idx g.san.text) ≡ g.san.idx
    → take g.san.idx g.san.text ++ input ≡ ends ++ framed (l ∷ ls)
    → All IsEnd ends
    → IsLine l
    → length (ends ++ framed (l ∷ ls)) ≤ 1024
    → receive_loop env (suc f) i g input
      ≡ after_line (receive_line env (i + 1) (record g { san = ahead ls }) l) (λ h.
        receive_loop env f (i + 1) (record h { san = ahead ls }) (b'\r' ∷ b'\n' ∷ framed ls))
unfolding receive_loop arrays_fit out_text
line_round env f i g input ends l ls some_input held e h h' fits =
    let before : List ℕ = ends ++ (b'\r' ∷ b'\n' ∷ []) in
    let rest : List ℕ = b'\n' ∷ framed ls in
    let parts : ends ++ framed (l ∷ ls) ≡ before ++ (l ++ (b'\r' ∷ rest)) =
      sym (append_assoc ends (b'\r' ∷ b'\n' ∷ []) (l ++ (b'\r' ∷ rest))) in
    let before_ends = All-append IsEnd ends (b'\r' ∷ b'\n' ∷ []) h (inl refl, (inr refl, tt)) in
    let size : length (ends ++ framed (l ∷ ls)) ≡ length before + (length l + suc (length rest)) =
      ap length parts
      ∙ ground
          (arith, length-append before (l ++ (b'\r' ∷ rest)), length-append l (b'\r' ∷ rest)) in
    let here =
      gsm_san-line g.at_last_recv g.san input before l rest some_input held (e ∙ parts) before_ends
        h' (omega (arith, ap length parts)) in
    let within : (length input ≤ 1024) =
      omega (arith, ap length e, length-append (take g.san.idx g.san.text) input) in
    let within_in : leb (length input) 1024 ≡ true = ground arith in
    let within_out : ltb (length l) 1024 ≡ true = ground arith in
    rw (
      receive_loop,
      here,
      within_in,
      within_out,
      here,
      here,
      take_all (length (b'\r' ∷ rest)) (b'\r' ∷ rest) (omega arith),
    )

-- The rest after the last line.
end_round :
    (env : Env) (f i : ℕ) (g : Gsm)
    → receive_loop env (suc f) i (record g { san = ahead [] }) (b'\r' ∷ b'\n' ∷ [])
      ≡ each_line env i g []
unfolding receive_loop arrays_fit out_text gsm_san san_add skip_of cr_of san_rest
end_round env f i g = refl

receive_loop-framed :
    (env : Env) (f i : ℕ) (g : Gsm) (input ends l : List ℕ) (ls : List (List ℕ))
    → length ls + 1 < f
    → 0 < length input
    → length (take g.san.idx g.san.text) ≡ g.san.idx
    → take g.san.idx g.san.text ++ input ≡ ends ++ framed (l ∷ ls)
    → All IsEnd ends
    → All IsLine (l ∷ ls)
    → length (ends ++ framed (l ∷ ls)) ≤ 1024
    → receive_loop env f i g input ≡ each_line env i g (l ∷ ls)
unfolding receive_loop arrays_fit out_text
receive_loop-framed env zero i g input ends l ls fuel some_input held e h h' fits =
    absurd (ground arith)
receive_loop-framed env (suc zero) i g input ends l ls fuel some_input held e h h' fits =
    absurd (ground arith)
receive_loop-framed env (suc (suc f)) i g input ends l [] fuel some_input held e h h' fits =
    line_round env (suc f) i g input ends l [] some_input held e h h'.0 fits
    ∙ same_after (receive_line env (i + 1) (record g { san = ahead [] }) l) _ _
        (λ k. end_round env f (i + 1) k)
receive_loop-framed env (suc (suc f)) i g input ends l (l' ∷ ls) fuel some_input held e h h' fits =
    line_round env (suc f) i g input ends l (l' ∷ ls) some_input held e h h'.0 fits
    ∙ same_after (receive_line env (i + 1) (record g { san = ahead (l' ∷ ls) }) l) _ _ (λ k.
      receive_loop-framed env (suc f) (i + 1) (record k { san = ahead (l' ∷ ls) })
        (b'\r' ∷ b'\n' ∷ framed (l' ∷ ls)) (b'\r' ∷ b'\n' ∷ []) l' ls (omega arith) (omega arith)
        refl refl (inl refl, (inr refl, tt)) h'.1
        (omega (
          arith,
          length-append ends (framed (l ∷ l' ∷ ls)),
          length-append l (b'\r' ∷ b'\n' ∷ framed (l' ∷ ls)),
        )))

-- What comes in for some lines, none of them empty and each between two ends of line, is answered line
-- by line, when it fits the arrays with what `sanbuf` holds: the function does for each line, in
-- order, what `receive_line` does, up to the first that leads to an event, to a return or to a fault.
-- Only octets of ends of line may stand before the lines, in `sanbuf` or in the text. A round for
-- each line and one more are enough.
pub module_receive-framed :
    (env : Env) (f : ℕ) (g : Gsm) (input ends l : List ℕ) (ls : List (List ℕ))
    → length ls + 1 < f
    → 0 < length input
    → length (take g.san.idx g.san.text) ≡ g.san.idx
    → take g.san.idx g.san.text ++ input ≡ ends ++ framed (l ∷ ls)
    → All IsEnd ends
    → All IsLine (l ∷ ls)
    → length (ends ++ framed (l ∷ ls)) ≤ 1024
    → module_receive env f g input
      ≡ each_line env 0 (record g { pool = gsm_getcall g.pool g.pool.cref }) (l ∷ ls)
unfolding module_receive
module_receive-framed env f g input ends l ls fuel some_input held e h h' fits =
    receive_loop-framed env f 0 (record g { pool = gsm_getcall g.pool g.pool.cref }) input ends l ls
      fuel some_input held e h h' fits
