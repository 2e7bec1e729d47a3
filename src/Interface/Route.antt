-- ===== src/Interface/Route.antt =====
-- The way round the list of interfaces, forwards and backwards.
use chan_extra.Prelude.{
  ℕ, ◌≡◌, refl, sym, ap, ◌∙◌, Bool, true, false, Option, none, some, List, [], ◌∷◌, ◌++◌, length,
  length-append, arith,
}
use chan_extra.Interface.Links.{Links, or_else}
use chan_extra.Interface.Chain.{
  IsApart-append, IsApart, IsChain, IsListed, IsChain-append, IsChain-back, IsChain-front,
  distinct-IsApart, IsDistinct-parts, first, last, last-append,
}
use chan_extra.Interface.Request.{go_on}

-- Each one leads to the next, and the last to the exit.
abbrev pub IsRoute : (ℕ → Option ℕ) → ℕ → List ℕ → Type 0
IsRoute step exit [] = Unit
IsRoute step exit (w ∷ ws) =
    (step w ≡ first ws (some exit)) × IsApart exit ws × IsRoute step exit ws

abbrev pub reverse : List ℕ → List ℕ
reverse [] = []
reverse (x ∷ xs) = reverse xs ++ (x ∷ [])

pub length-reverse : (xs : List ℕ) → length (reverse xs) ≡ length xs
length-reverse [] = refl
length-reverse (x ∷ xs) =
    let ih = length-reverse xs in omega (arith, length-append (reverse xs) (x ∷ []))

last-reverse : (xs : List ℕ) (after : Option ℕ) → last (reverse xs) after ≡ first xs after
last-reverse [] after = refl
last-reverse (x ∷ xs) after = last-append (reverse xs) (x ∷ []) after

first-append :
    (xs ys : List ℕ) (after : Option ℕ) → first (xs ++ ys) after ≡ first xs (first ys after)
first-append [] ys after = refl
first-append (x ∷ xs) ys after = refl

first-reverse : (xs : List ℕ) (before : Option ℕ) → first (reverse xs) before ≡ last xs before
first-reverse [] before = refl
first-reverse (x ∷ xs) before =
    first-append (reverse xs) (x ∷ []) before ∙ first-reverse xs (some x)

IsApart-reverse : (r : ℕ) (xs : List ℕ) → IsApart r xs → IsApart r (reverse xs)
IsApart-reverse r [] h = tt
IsApart-reverse r (x ∷ xs) h =
    IsApart-append r (reverse xs) (x ∷ []) (IsApart-reverse r xs h.1) (h.0, tt)

-- The same list from its end.
IsChain-reverse :
    (prev next : ℕ → Option ℕ) (xs : List ℕ) (before after : Option ℕ)
    → IsChain prev next before xs after
    → IsChain next prev after (reverse xs) before
IsChain-reverse prev next [] before after h = tt
IsChain-reverse prev next (x ∷ xs) before after h =
    IsChain-append next prev (reverse xs) (x ∷ []) after before
      (IsChain-reverse prev next xs (some x) after h.2) (h.1 ∙ sym (last-reverse xs after), h.0, tt)

module _ (prev next : ℕ → Option ℕ) (head : Option ℕ) (exit : ℕ) where
  -- Before the exit.
  IsRoute-front :
      (ys : List ℕ) (before : Option ℕ)
      → IsApart exit ys
      → IsChain prev next before ys (some exit)
      → IsRoute (λ p. or_else (next p) head) exit ys
  IsRoute-front [] before apart h = tt
  IsRoute-front (y ∷ []) before apart h = (ap (λ o. or_else o head) h.1, tt, tt)
  IsRoute-front (y ∷ y' ∷ ys) before apart h =
      (ap (λ o. or_else o head) h.1, apart.1, IsRoute-front (y' ∷ ys) (some y) apart.1 h.2)

  round_end :
      (zs ys : List ℕ)
      → head ≡ first ys (some exit)
      → or_else (first zs none) head ≡ first (zs ++ ys) (some exit)
  round_end [] ys h = h
  round_end (z ∷ zs) ys h = refl

  -- Behind the exit, and round the end of the list.
  IsRoute-back :
      (zs ys : List ℕ) (before : Option ℕ)
      → head ≡ first ys (some exit)
      → IsApart exit zs
      → IsApart exit ys
      → IsChain prev next before zs none
      → IsRoute (λ p. or_else (next p) head) exit ys
      → IsRoute (λ p. or_else (next p) head) exit (zs ++ ys)
  IsRoute-back [] ys before e apart apart' h r = r
  IsRoute-back (z ∷ zs) ys before e apart apart' h r = (
    ap (λ o. or_else o head) h.1 ∙ round_end zs ys e,
    IsApart-append exit zs ys apart.1 apart',
    IsRoute-back zs ys (some z) e apart.1 apart' h.2 r,
  )

  -- From the exit round to it.
  IsRoute-round :
      (ys zs : List ℕ)
      → head ≡ first ys (some exit)
      → next exit ≡ first zs none
      → IsApart exit ys
      → IsApart exit zs
      → IsChain prev next none ys (some exit)
      → IsChain prev next (some exit) zs none
      → IsRoute (λ p. or_else (next p) head) exit (exit ∷ (zs ++ ys))
  IsRoute-round ys zs e behind apart apart' front back = (
    ap (λ o. or_else o head) behind ∙ round_end zs ys e,
    IsApart-append exit zs ys apart' apart,
    IsRoute-back zs ys (some exit) e apart' apart back (IsRoute-front ys none apart front),
  )

abbrev pub search_rest : Bool → List ℕ → List ℕ → List ℕ
search_rest true ys zs = reverse ys ++ reverse zs
search_rest false ys zs = zs ++ ys

-- The interfaces in the order in which the search comes to them.
abbrev pub search_order : Bool → ℕ → List ℕ → List ℕ → List ℕ
search_order backwards exit ys zs = exit ∷ search_rest backwards ys zs

pub order-IsRoute :
    (l : Links) (backwards : Bool) (exit : ℕ) (ys zs : List ℕ)
    → IsListed l (ys ++ (exit ∷ zs))
    → IsRoute (go_on l backwards) exit (search_order backwards exit ys zs)
unfolding go_on
order-IsRoute l false exit ys zs listed =
    let own = IsChain-back l.prev l.next ys (exit ∷ zs) none none listed.chained in
    IsRoute-round l.prev l.next l.iflist exit ys zs (listed.head ∙ first-append ys (exit ∷ zs) none)
      own.1 (distinct-IsApart exit ys zs listed.distinct)
      (IsDistinct-parts ys (exit ∷ zs) listed.distinct).1.0
      (IsChain-front l.prev l.next ys (exit ∷ zs) none none listed.chained) own.2
order-IsRoute l true exit ys zs listed =
    let own = IsChain-back l.prev l.next ys (exit ∷ zs) none none listed.chained in
    IsRoute-round l.next l.prev l.ifend exit (reverse zs) (reverse ys)
      (listed.tail ∙ last-append ys (exit ∷ zs) none ∙ sym (first-reverse zs (some exit)))
      (own.0 ∙ sym (first-reverse ys none))
      (IsApart-reverse exit zs (IsDistinct-parts ys (exit ∷ zs) listed.distinct).1.0)
      (IsApart-reverse exit ys (distinct-IsApart exit ys zs listed.distinct))
      (IsChain-reverse l.prev l.next zs (some exit) none own.2)
      (IsChain-reverse l.prev l.next ys none (some exit)
        (IsChain-front l.prev l.next ys (exit ∷ zs) none none listed.chained))
