-- ===== src/Interface/Insert.antt =====
-- An interface is put into the list.
use mathlib.Core.Path.{subst}
use chan_extra.Prelude.{
  ℕ, zero, suc, ◌≤◌, ◌≡◌, refl, sym, ap, ◌∙◌, ℤ, less, true, false, Option, none, some, List, [],
  ◌∷◌, ◌++◌, append_assoc, append-nil, arith, inl, inr, Bool-cases, length,
}
use chan_extra.Interface.Links.{
  Links, or_else, write, write_at, insert_before, insert_end, insert_loop,
}
use chan_extra.Interface.Chain.{
  last-some, IsApart, IsChain, IsDistinct, IsListed, ==_comm, IsApart-parts, IsChain-append,
  IsChain-write_last, IsChain-write_next, IsChain-write_prev, IsChain-back, IsChain-front,
  distinct-IsApart, IsDistinct-insert, IsDistinct-parts, first, last, last-append, relink_first,
  relink_last, write_at-last, write_other, write_self,
}

-- What comes before the new one.
front_linked :
    (prev next : ℕ → Option ℕ) (r : ℕ) (before after c : Option ℕ) (ys : List ℕ)
    → IsDistinct ys
    → IsApart r ys
    → IsChain prev next none ys after
    → IsChain
        (write prev r before)
        (write_at (write next r c) (last ys none) (some r))
        none
        ys
        (some r)
front_linked prev next r before after c ys d apart h =
    relink_last (write prev r before) (write next r c) ys none after (some r) d (
      IsChain-write_next (write prev r before) next r c ys none after apart
        (IsChain-write_prev prev next r before ys none after apart h))

before-IsChain :
    (st : Links) (r z : ℕ) (ys zs : List ℕ)
    → IsApart r (ys ++ (z ∷ zs))
    → IsListed st (ys ++ (z ∷ zs))
    → IsChain
        (write (write st.prev r (last ys none)) z (some r))
        (write_at (write st.next r (some z)) (last ys none) (some r))
        none
        (ys ++ (r ∷ z ∷ zs))
        none
before-IsChain st r z ys zs apart listed =
    let (apart_ys, apart_zs) = IsApart-parts r ys (z ∷ zs) apart in
    let (d_ys, d_zs) = IsDistinct-parts ys (z ∷ zs) listed.distinct in
    let b = last ys none in
    let prev1 = write st.prev r b in
    let next1 = write st.next r (some z) in
    let next' = write_at next1 b (some r) in
    let front : IsChain prev1 next' none ys (some r) =
      front_linked st.prev st.next r b (some z) (some z) ys d_ys apart_ys
        (IsChain-front st.prev st.next ys (z ∷ zs) none none listed.chained) in
    let back : IsChain prev1 next' b (z ∷ zs) none =
      IsChain-write_last prev1 next1 (some r) ys (z ∷ zs) b none listed.distinct (
        IsChain-write_next prev1 st.next r (some z) (z ∷ zs) b none apart_zs (
          IsChain-write_prev st.prev st.next r b (z ∷ zs) b none apart_zs
            (IsChain-back st.prev st.next ys (z ∷ zs) none none listed.chained))) in
    IsChain-append (write prev1 z (some r)) next' ys (r ∷ z ∷ zs) none none
      (IsChain-write_prev prev1 next' z (some r) ys none (some r)
        (distinct-IsApart z ys zs listed.distinct) front)
      (
        write_other prev1 z r (some r) (==_comm z r apart_zs.0) ∙ write_self st.prev r b,
        write_at-last next1 (some r) r ys apart_ys ∙ write_self st.next r (some z),
        relink_first prev1 next' z zs b (some r) none d_zs.0 back,
      )

-- The head of the list, with the new one between.
head_before :
    (r z : ℕ) (ys zs : List ℕ) (iflist : Option ℕ)
    → iflist ≡ first (ys ++ (z ∷ zs)) none
    → ◌≡◌ {A = Option ℕ}
        (elim (last ys none) [ none ↦ some r | some p ↦ iflist ])
        (first (ys ++ (r ∷ z ∷ zs)) none)
head_before r z [] zs iflist h = refl
head_before r z (y ∷ ys) zs iflist h = let (k, e) = last-some y ys in rw e h

insert_before-IsListed :
    (st : Links) (r z : ℕ) (ys zs : List ℕ)
    → IsApart r (ys ++ (z ∷ zs))
    → IsListed st (ys ++ (z ∷ zs))
    → IsListed (insert_before st r z) (ys ++ (r ∷ z ∷ zs))
unfolding insert_before
insert_before-IsListed st r z ys zs apart listed =
    let before : st.prev z ≡ last ys none =
      (IsChain-back st.prev st.next ys (z ∷ zs) none none listed.chained).0 in
    record {
      chained = rw before (before-IsChain st r z ys zs apart listed);
      head = rw before (head_before r z ys zs st.iflist listed.head);
      tail = listed.tail ∙ last-append ys (z ∷ zs) none ∙ sym (last-append ys (r ∷ z ∷ zs) none);
      distinct = IsDistinct-insert r ys (z ∷ zs) apart listed.distinct;
    }

end-IsChain :
    (st : Links) (r : ℕ) (ys : List ℕ)
    → IsApart r ys
    → IsListed st ys
    → IsChain
        (write st.prev r (last ys none))
        (write_at (write st.next r none) (last ys none) (some r))
        none
        (ys ++ (r ∷ []))
        none
end-IsChain st r ys apart listed =
    let b = last ys none in
    IsChain-append (write st.prev r b) (write_at (write st.next r none) b (some r)) ys (r ∷ []) none
      none (front_linked st.prev st.next r b none none ys listed.distinct apart listed.chained)
      (
        write_self st.prev r b,
        write_at-last (write st.next r none) (some r) r ys apart ∙ write_self st.next r none,
        tt,
      )

head_end : (r : ℕ) (ys : List ℕ) → or_else (first ys none) (some r) ≡ first (ys ++ (r ∷ [])) none
head_end r [] = refl
head_end r (y ∷ ys) = refl

insert_end-IsListed :
    (st : Links) (r : ℕ) (ys : List ℕ)
    → IsApart r ys
    → IsListed st ys
    → IsListed (insert_end st r) (ys ++ (r ∷ []))
unfolding insert_end
insert_end-IsListed st r ys apart listed = record {
  chained = rw listed.tail (end-IsChain st r ys apart listed);
  head = ap (λ o. or_else o (some r)) listed.head ∙ head_end r ys;
  tail = sym (last-append ys (r ∷ []) none);
  distinct =
      IsDistinct-insert r ys [] (rw (append-nil ys) apart) (rw (append-nil ys) listed.distinct);
}

-- Where the new one goes: before the first that has a higher channel.
abbrev pub insert_sorted : (ℕ → ℤ) → ℕ → List ℕ → List ℕ
insert_sorted channel r [] = r ∷ []
insert_sorted channel r (z ∷ zs) = elim (less (channel r) (channel z)) [
  | true ↦ r ∷ z ∷ zs
  | false ↦ z ∷ insert_sorted channel r zs
]

pub sorted_here :
    (channel : ℕ → ℤ) (r z : ℕ) (zs : List ℕ)
    → less (channel r) (channel z) ≡ true
    → insert_sorted channel r (z ∷ zs) ≡ r ∷ z ∷ zs
sorted_here channel r z zs here = rw (insert_sorted, here) refl

pub sorted_further :
    (channel : ℕ → ℤ) (r z : ℕ) (zs : List ℕ)
    → less (channel r) (channel z) ≡ false
    → insert_sorted channel r (z ∷ zs) ≡ z ∷ insert_sorted channel r zs
sorted_further channel r z zs further = rw (insert_sorted, further) refl

pub insert_loop-IsListed :
    (n : ℕ) (st : Links) (r : ℕ) (ys zs : List ℕ)
    → IsApart r (ys ++ zs)
    → IsListed st (ys ++ zs)
    → length zs ≤ n
    → IsListed (insert_loop n st r (first zs none)) (ys ++ insert_sorted st.channel r zs)
unfolding insert_loop
insert_loop-IsListed n st r ys [] apart listed enough =
    insert_end-IsListed st r ys (IsApart-parts r ys [] apart).0
      (subst (IsListed st) (append-nil ys) listed)
insert_loop-IsListed zero st r ys (z ∷ zs) apart listed enough = absurd (omega arith)
insert_loop-IsListed (suc n) st r ys (z ∷ zs) apart listed enough =
    elim (Bool-cases (less (st.channel r) (st.channel z))) [
      | inl here ↦
          rw (insert_loop, here, sorted_here st.channel r z zs here)
            (insert_before-IsListed st r z ys zs apart listed)
      | inr further ↦
          let next : st.next z ≡ first zs none =
            (IsChain-back st.prev st.next ys (z ∷ zs) none none listed.chained).1 in
          let moved = append_assoc ys (z ∷ []) zs in
          let ih =
            insert_loop-IsListed n st r (ys ++ (z ∷ [])) zs (subst (IsApart r) (sym moved) apart)
              (subst (IsListed st) (sym moved) listed) (omega arith) in
          rw (insert_loop, further, next, sorted_further st.channel r z zs further)
            (subst (IsListed (insert_loop n st r (first zs none)))
              (append_assoc ys (z ∷ []) (insert_sorted st.channel r zs)) ih)
    ]
