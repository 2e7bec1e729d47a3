-- ===== src/Prelude/Slices.antt =====
-- What `take` and `drop` make of each other, and of two lists joined.
use Prim.Native.Nat.{ℕ, zero, suc, ◌-◌, ◌≤◌}
use mathlib.Core.Path.{◌≡◌, refl, sym, ap}
use mathlib.Core.List.{List, [], ◌∷◌, ◌++◌}
use native.Mathlib.Omega.{arith}
use chan_extra.Prelude.Lists.{length, take, drop, take_all}

module _ {ℓ} {A : Type ℓ} where
  pub drop_all : (n : ℕ) (xs : List A) → length xs ≤ n → drop n xs ≡ []
  drop_all zero [] h = refl
  drop_all zero (x ∷ xs) h = absurd (omega arith)
  drop_all (suc n) [] h = refl
  drop_all (suc n) (x ∷ xs) h = drop_all n xs (omega arith)

  pub take-take_le : (n m : ℕ) (xs : List A) → n ≤ m → take n (take m xs) ≡ take n xs
  take-take_le zero m xs h = refl
  take-take_le (suc n) zero xs h = absurd (omega arith)
  take-take_le (suc n) (suc m) [] h = refl
  take-take_le (suc n) (suc m) (x ∷ xs) h = ap (λ l. x ∷ l) (take-take_le n m xs (omega arith))

  pub drop-take_le : (n m : ℕ) (xs : List A) → n ≤ m → drop n (take m xs) ≡ take (m - n) (drop n xs)
  drop-take_le zero m xs h = let e : m - 0 ≡ m = omega arith in rw e refl
  drop-take_le (suc n) zero xs h = absurd (omega arith)
  drop-take_le (suc n) (suc m) [] h = sym (take_all (suc m - suc n) [] (omega arith))
  drop-take_le (suc n) (suc m) (x ∷ xs) h =
      let e : suc m - suc n ≡ m - n = omega arith in rw e (drop-take_le n m xs (omega arith))

  pub take-append_ge : (n : ℕ) (xs ys : List A) → n ≤ length xs → take n (xs ++ ys) ≡ take n xs
  take-append_ge zero xs ys h = refl
  take-append_ge (suc n) [] ys h = absurd (omega arith)
  take-append_ge (suc n) (x ∷ xs) ys h = ap (λ l. x ∷ l) (take-append_ge n xs ys (omega arith))

  pub drop-append_ge :
      (n : ℕ) (xs ys : List A) → n ≤ length xs → drop n (xs ++ ys) ≡ drop n xs ++ ys
  drop-append_ge zero xs ys h = refl
  drop-append_ge (suc n) [] ys h = absurd (omega arith)
  drop-append_ge (suc n) (x ∷ xs) ys h = drop-append_ge n xs ys (omega arith)

  pub drop-append_le :
      (n : ℕ) (xs ys : List A) → length xs ≤ n → drop n (xs ++ ys) ≡ drop (n - length xs) ys
  drop-append_le n [] ys h = let e : n - 0 ≡ n = omega arith in rw e refl
  drop-append_le zero (x ∷ xs) ys h = absurd (omega arith)
  drop-append_le (suc n) (x ∷ xs) ys h =
      let e : suc n - suc (length xs) ≡ n - length xs = omega arith in
      rw e (drop-append_le n xs ys (omega arith))
