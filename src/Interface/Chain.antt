-- ===== src/Interface/Chain.antt =====
-- The list of interfaces as a list: what the pointers prev and next say, and what writing one of
-- them does to it.
use chan_extra.Prelude.{
  ℕ, ◌≡◌, refl, ◌∙◌, true, false, Option, none, some, List, [], ◌∷◌, ◌++◌, ◌==◌, All, arith,
}
use chan_extra.Interface.Links.{Links, write, write_at}

-- The first one of a list, or what comes behind it, and the last one, or what comes before it.
abbrev pub first : List ℕ → Option ℕ → Option ℕ
first [] after = after
first (x ∷ xs) after = some x

abbrev pub last : List ℕ → Option ℕ → Option ℕ
last [] before = before
last (x ∷ xs) before = last xs (some x)

-- The pointers of these interfaces lead from one to the next and back.
abbrev pub IsChain : (ℕ → Option ℕ) → (ℕ → Option ℕ) → Option ℕ → List ℕ → Option ℕ → Type 0
IsChain prev next before [] after = Unit
IsChain prev next before (x ∷ xs) after =
    (prev x ≡ before) × (next x ≡ first xs after) × IsChain prev next (some x) xs after

abbrev pub IsApart : ℕ → List ℕ → Type 0
IsApart r xs = All (λ x. (x == r) ≡ false) xs

abbrev pub IsDistinct : List ℕ → Type 0
IsDistinct [] = Unit
IsDistinct (x ∷ xs) = IsApart x xs × IsDistinct xs

-- The list of interfaces is this one.
pub record IsListed (st : Links) (xs : List ℕ) : Type 0 where
  pub chained : IsChain st.prev st.next none xs none
  pub head : st.iflist ≡ first xs none
  pub tail : st.ifend ≡ last xs none
  pub distinct : IsDistinct xs

pub write_self {ℓ} : {A : Type ℓ} (f : ℕ → A) (k : ℕ) (v : A) → write f k v k ≡ v
write_self f k v = let same : (k == k) ≡ true = ground arith in rw same refl

pub write_other {ℓ} :
    {A : Type ℓ} (f : ℕ → A) (k x : ℕ) (v : A) → (x == k) ≡ false → write f k v x ≡ f x
write_other f k x v other = rw other refl

pub ==_comm : (a b : ℕ) → (a == b) ≡ false → (b == a) ≡ false
==_comm a b h = ground arith

pub write_at-last {ℓ} :
    {A : Type ℓ} (f : ℕ → A) (v : A) (x : ℕ) (ys : List ℕ)
    → IsApart x ys
    → write_at f (last ys none) v x ≡ f x
write_at-last f v x [] apart = refl
write_at-last f v x (y ∷ []) apart = write_other f y x v (==_comm y x apart.0)
write_at-last f v x (y ∷ y' ∷ ys) apart = write_at-last f v x (y' ∷ ys) apart.1

pub last-append :
    (ys zs : List ℕ) (before : Option ℕ) → last (ys ++ zs) before ≡ last zs (last ys before)
last-append [] zs before = refl
last-append (y ∷ ys) zs before = last-append ys zs (some y)

-- The lists that are put together are distinct, and their members apart.
pub IsApart-parts : (x : ℕ) (ys zs : List ℕ) → IsApart x (ys ++ zs) → IsApart x ys × IsApart x zs
IsApart-parts x [] zs h = (tt, h)
IsApart-parts x (y ∷ ys) zs h =
    let (front, back) = IsApart-parts x ys zs h.1 in ((h.0, front), back)

pub IsDistinct-parts : (ys zs : List ℕ) → IsDistinct (ys ++ zs) → IsDistinct ys × IsDistinct zs
IsDistinct-parts [] zs h = (tt, h)
IsDistinct-parts (y ∷ ys) zs h =
    let (front, back) = IsDistinct-parts ys zs h.1 in (((IsApart-parts y ys zs h.0).0, front), back)

pub distinct-IsApart : (z : ℕ) (ys zs : List ℕ) → IsDistinct (ys ++ (z ∷ zs)) → IsApart z ys
distinct-IsApart z [] zs h = tt
distinct-IsApart z (y ∷ ys) zs h =
    (==_comm z y (IsApart-parts y ys (z ∷ zs) h.0).1.0, distinct-IsApart z ys zs h.1)

pub IsApart-append : (x : ℕ) (ys zs : List ℕ) → IsApart x ys → IsApart x zs → IsApart x (ys ++ zs)
IsApart-append x [] zs h k = k
IsApart-append x (y ∷ ys) zs h k = (h.0, IsApart-append x ys zs h.1 k)

pub last-some : (y : ℕ) (ys : List ℕ) → (k : ℕ) × (last ys (some y) ≡ some k)
last-some y [] = (y, refl)
last-some y (y' ∷ ys) = last-some y' ys

IsApart-insert :
    (x r : ℕ) (ys zs : List ℕ)
    → (r == x) ≡ false
    → IsApart x (ys ++ zs)
    → IsApart x (ys ++ (r ∷ zs))
IsApart-insert x r [] zs other h = (other, h)
IsApart-insert x r (y ∷ ys) zs other h = (h.0, IsApart-insert x r ys zs other h.1)

pub IsDistinct-insert :
    (r : ℕ) (ys zs : List ℕ)
    → IsApart r (ys ++ zs)
    → IsDistinct (ys ++ zs)
    → IsDistinct (ys ++ (r ∷ zs))
IsDistinct-insert r [] zs apart h = (apart, h)
IsDistinct-insert r (y ∷ ys) zs apart h =
    (IsApart-insert y r ys zs (==_comm y r apart.0) h.0, IsDistinct-insert r ys zs apart.1 h.1)

module _ (prev next : ℕ → Option ℕ) where
  pub IsChain-append :
      (ys zs : List ℕ) (before after : Option ℕ)
      → IsChain prev next before ys (first zs after)
      → IsChain prev next (last ys before) zs after
      → IsChain prev next before (ys ++ zs) after
  IsChain-append [] zs before after h k = k
  IsChain-append (y ∷ []) zs before after h k = (h.0, h.1, k)
  IsChain-append (y ∷ y' ∷ ys) zs before after h k =
      (h.0, h.1, IsChain-append (y' ∷ ys) zs (some y) after h.2 k)

  pub IsChain-front :
      (ys zs : List ℕ) (before after : Option ℕ)
      → IsChain prev next before (ys ++ zs) after
      → IsChain prev next before ys (first zs after)
  IsChain-front [] zs before after h = tt
  IsChain-front (y ∷ []) zs before after h = (h.0, h.1, tt)
  IsChain-front (y ∷ y' ∷ ys) zs before after h =
      (h.0, h.1, IsChain-front (y' ∷ ys) zs (some y) after h.2)

  pub IsChain-back :
      (ys zs : List ℕ) (before after : Option ℕ)
      → IsChain prev next before (ys ++ zs) after
      → IsChain prev next (last ys before) zs after
  IsChain-back [] zs before after h = h
  IsChain-back (y ∷ ys) zs before after h = IsChain-back ys zs (some y) after h.2

  -- An interface that is not in the list is written.
  pub IsChain-write_prev :
      (k : ℕ) (v : Option ℕ) (xs : List ℕ) (before after : Option ℕ)
      → IsApart k xs
      → IsChain prev next before xs after
      → IsChain (write prev k v) next before xs after
  IsChain-write_prev k v [] before after apart h = tt
  IsChain-write_prev k v (x ∷ xs) before after apart h = (
    write_other prev k x v apart.0 ∙ h.0,
    h.1,
    IsChain-write_prev k v xs (some x) after apart.1 h.2,
  )

  pub IsChain-write_next :
      (k : ℕ) (v : Option ℕ) (xs : List ℕ) (before after : Option ℕ)
      → IsApart k xs
      → IsChain prev next before xs after
      → IsChain prev (write next k v) before xs after
  IsChain-write_next k v [] before after apart h = tt
  IsChain-write_next k v (x ∷ xs) before after apart h = (
    h.0,
    write_other next k x v apart.0 ∙ h.1,
    IsChain-write_next k v xs (some x) after apart.1 h.2,
  )

  -- The pointer into the list and the one out of it are written.
  pub relink_first :
      (x : ℕ) (xs : List ℕ) (before before' after : Option ℕ)
      → IsApart x xs
      → IsChain prev next before (x ∷ xs) after
      → IsChain (write prev x before') next before' (x ∷ xs) after
  relink_first x xs before before' after apart h =
      (write_self prev x before', h.1, IsChain-write_prev x before' xs (some x) after apart h.2)

  pub relink_last :
      (ys : List ℕ) (before after after' : Option ℕ)
      → IsDistinct ys
      → IsChain prev next before ys after
      → IsChain prev (write_at next (last ys none) after') before ys after'
  relink_last [] before after after' d h = tt
  relink_last (y ∷ []) before after after' d h = (h.0, write_self next y after', tt)
  relink_last (y ∷ y' ∷ ys) before after after' d h = (
    h.0,
    write_at-last next after' y (y' ∷ ys) d.0 ∙ h.1,
    relink_last (y' ∷ ys) (some y) after after' d.1 h.2,
  )

  -- The last one of a list is written, in a list that comes behind it.
  pub IsChain-write_last :
      (v : Option ℕ) (ys zs : List ℕ) (before after : Option ℕ)
      → IsDistinct (ys ++ zs)
      → IsChain prev next before zs after
      → IsChain prev (write_at next (last ys none) v) before zs after
  IsChain-write_last v [] zs before after d h = h
  IsChain-write_last v (y ∷ []) zs before after d h = IsChain-write_next y v zs before after d.0 h
  IsChain-write_last v (y ∷ y' ∷ ys) zs before after d h =
      IsChain-write_last v (y' ∷ ys) zs before after d.1 h
