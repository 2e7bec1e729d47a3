-- ===== src/Mux/Fcs/Laws.antt =====
-- What the table of the check holds, and when a check is right.
use chan_extra.Prelude.{
  ℕ, zero, suc, ◌-◌, ◌/◌, ◌%◌, ◌<◌, ◌↔◌, ◌≡◌, refl, true, List, [], ◌∷◌, arith, get_or, bit_xor,
  All, IsByte, all_below, all_below_sound, ◌==◌, ==→eq, ltb, ltb→lt, if◌then◌else◌,
}
use chan_extra.Mux.Fcs.{gsm0710_crctable, fcs_step, fcs_loop, gsm0710_make_fcs}

-- `n` bits of the division by x^8 + x^2 + x + 1, with the bits of an octet in reverse.
unfoldable pub divide : ℕ → ℕ → ℕ
divide zero x = x
divide (suc n) x = divide n (if x % 2 == 1 then bit_xor (x / 2) 0xe0 else x / 2)

crctable-divide_table : all_below 256 (λ x. get_or gsm0710_crctable x 0 == divide 8 x) ≡ true
unfolding all_below divide gsm0710_crctable
crctable-divide_table = refl

-- The table holds, for every octet, the remainder of the eight bits of the octet.
pub crctable-divide : (x : ℕ) → x < 256 → get_or gsm0710_crctable x 0 ≡ divide 8 x
crctable-divide x h = ==→eq _ _ (all_below_sound 256 _ x crctable-divide_table h)

xor_table : all_below 256 (λ x. all_below 256 (λ y. ltb (fcs_step x y) 256)) ≡ true
unfolding all_below fcs_step gsm0710_crctable
xor_table = refl

fcs_step-IsByte : (x y : ℕ) → x < 256 → y < 256 → fcs_step x y < 256
fcs_step-IsByte x y h k =
    ltb→lt _ _ (all_below_sound 256 _ y (all_below_sound 256 _ x xor_table h) k)

pub fcs_loop-IsByte : (fcs : ℕ) (bs : List ℕ) → fcs < 256 → All IsByte bs → fcs_loop fcs bs < 256
unfolding fcs_loop
fcs_loop-IsByte fcs [] h k = h
fcs_loop-IsByte fcs (b ∷ bs) h k =
    fcs_loop-IsByte (fcs_step fcs b) bs (fcs_step-IsByte fcs b h k.0) k.1

complement_table : all_below 256 (λ x. fcs_step x (0xff - x) == 0xcf) ≡ true
unfolding all_below fcs_step gsm0710_crctable
complement_table = refl

single_table :
    all_below 256 (λ x. all_below 256 (λ y. if fcs_step x y == 0xcf then y == 0xff - x else true))
    ≡ true
unfolding all_below fcs_step gsm0710_crctable
single_table = refl

-- After any octets the check comes to 0xcf, which the receiver looks for, with one octet and no
-- other: the one that `gsm0710_make_fcs` gives for these octets.
pub check_iff :
    (bs : List ℕ) (b : ℕ)
    → All IsByte bs
    → b < 256
    → (fcs_step (fcs_loop 0xff bs) b ≡ 0xcf) ↔ (b ≡ gsm0710_make_fcs bs)
unfolding gsm0710_make_fcs
check_iff bs b h k =
    let fcs = fcs_loop 0xff bs in
    let in_range = fcs_loop-IsByte 0xff bs (omega arith) h in
    let single : (if fcs_step fcs b == 0xcf then b == 0xff - fcs else true) ≡ true =
      all_below_sound 256 _ b (all_below_sound 256 _ fcs single_table in_range) k in
    let right : fcs_step fcs (0xff - fcs) ≡ 0xcf =
      ==→eq _ _ (all_below_sound 256 _ fcs complement_table in_range) in
    (λ e. ==→eq b _ (rw (e) at single), λ e. rw e right)

pub make_fcs-IsByte : (bs : List ℕ) → gsm0710_make_fcs bs < 256
unfolding gsm0710_make_fcs
make_fcs-IsByte bs = omega arith
