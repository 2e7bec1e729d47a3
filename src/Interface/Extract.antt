-- ===== src/Interface/Extract.antt =====
-- An interface is taken out of the list.
use mathlib.Core.Path.{subst}
use chan_extra.Prelude.{
  ℕ, ◌≡◌, refl, sym, ◌∙◌, true, Option, none, some, List, [], ◌∷◌, ◌++◌, append-nil, ◌==◌,
  if◌then◌else◌, arith,
}
use chan_extra.Interface.Links.{Links, is_at, write, write_at, extra_iflist_extract}
use chan_extra.Interface.Chain.{
  IsApart-append, last-some, IsApart, IsChain, IsDistinct, IsListed, ==_comm, IsChain-append,
  IsChain-write_last, IsChain-write_next, IsChain-write_prev, IsChain-back, IsChain-front,
  distinct-IsApart, IsDistinct-parts, first, last, last-append, relink_first, relink_last,
  write_at-last, write_other, write_self,
}

-- The one behind is written, and a list that begins with it is linked to what comes before.
relink_behind :
    (prev next : ℕ → Option ℕ) (zs : List ℕ) (before before' after : Option ℕ)
    → IsDistinct zs
    → IsChain prev next before zs after
    → IsChain (write_at prev (first zs none) before') next before' zs after
relink_behind prev next [] before before' after d h = tt
relink_behind prev next (z ∷ zs) before before' after d h =
    relink_first prev next z zs before before' after d.0 h

-- A list that the one behind is not in.
IsChain-write_behind :
    (prev next : ℕ → Option ℕ) (v : Option ℕ) (ys zs : List ℕ) (before after : Option ℕ)
    → IsDistinct (ys ++ zs)
    → IsChain prev next before ys after
    → IsChain (write_at prev (first zs none) v) next before ys after
IsChain-write_behind prev next v ys [] before after d h = h
IsChain-write_behind prev next v ys (z ∷ zs) before after d h =
    IsChain-write_prev prev next z v ys before after (distinct-IsApart z ys zs d) h

IsApart-remove : (x r : ℕ) (ys zs : List ℕ) → IsApart x (ys ++ (r ∷ zs)) → IsApart x (ys ++ zs)
IsApart-remove x r [] zs h = h.1
IsApart-remove x r (y ∷ ys) zs h = (h.0, IsApart-remove x r ys zs h.1)

IsDistinct-remove : (r : ℕ) (ys zs : List ℕ) → IsDistinct (ys ++ (r ∷ zs)) → IsDistinct (ys ++ zs)
IsDistinct-remove r [] zs h = h.1
IsDistinct-remove r (y ∷ ys) zs h = (IsApart-remove y r ys zs h.0, IsDistinct-remove r ys zs h.1)

module _ (st : Links) (r : ℕ) (ys zs : List ℕ) (listed : IsListed st (ys ++ (r ∷ zs))) where
  left-IsApart : IsApart r (ys ++ zs)
  left-IsApart =
      IsApart-append r ys zs (distinct-IsApart r ys zs listed.distinct)
        (IsDistinct-parts ys (r ∷ zs) listed.distinct).1.0

  remaining : IsDistinct (ys ++ zs)
  remaining = IsDistinct-remove r ys zs listed.distinct

  -- The two parts of the list are linked.
  linked :
      IsChain
        (write_at st.prev (first zs none) (last ys none))
        (write_at st.next (last ys none) (first zs none))
        none
        (ys ++ zs)
        none
  linked =
      let b = last ys none in
      let a = first zs none in
      let (d_ys, d_zs) = IsDistinct-parts ys zs remaining in
      let next' = write_at st.next b a in
      let front : IsChain st.prev next' none ys a =
        relink_last st.prev st.next ys none (some r) a d_ys
          (IsChain-front st.prev st.next ys (r ∷ zs) none none listed.chained) in
      let back : IsChain st.prev next' (some r) zs none =
        IsChain-write_last st.prev st.next a ys zs (some r) none remaining
          (IsChain-back st.prev st.next ys (r ∷ zs) none none listed.chained).2 in
      IsChain-append (write_at st.prev a b) next' ys zs none none
        (IsChain-write_behind st.prev next' b ys zs none a remaining front)
        (relink_behind st.prev next' zs (some r) b none d_zs back)

  -- The new one's own pointers are cleared.
  cleared :
      IsChain
        (write (write_at st.prev (first zs none) (last ys none)) r none)
        (write (write_at st.next (last ys none) (first zs none)) r none)
        none
        (ys ++ zs)
        none
  cleared =
      let prev' = write_at st.prev (first zs none) (last ys none) in
      let next' = write_at st.next (last ys none) (first zs none) in
      IsChain-write_next (write prev' r none) next' r none (ys ++ zs) none none left-IsApart
        (IsChain-write_prev prev' next' r none (ys ++ zs) none none left-IsApart linked)

write_at_first :
    (f : ℕ → Option ℕ) (v : Option ℕ) (x : ℕ) (zs : List ℕ)
    → IsApart x zs
    → write_at f (first zs none) v x ≡ f x
write_at_first f v x [] apart = refl
write_at_first f v x (z ∷ zs) apart = write_other f z x v (==_comm z x apart.0)

-- The chain, as the code writes the pointers.
taken_out :
    (st : Links) (r : ℕ) (ys zs : List ℕ)
    → IsListed st (ys ++ (r ∷ zs))
    → st.prev r ≡ last ys none
    → st.next r ≡ first zs none
    → write_at st.next (st.prev r) (st.next r) r ≡ first zs none
    → IsChain
        (write (write_at st.prev (write_at st.next (st.prev r) (st.next r) r) (st.prev r)) r none)
        (write (write_at st.next (st.prev r) (st.next r)) r none)
        none
        (ys ++ zs)
        none
taken_out st r ys zs listed before behind kept = rw kept (
    subst
      (λ b.
        IsChain (write (write_at st.prev (first zs none) b) r none)
          (write (write_at st.next b (st.next r)) r none) none (ys ++ zs) none)
      (sym before)
      (subst
        (λ a.
          IsChain (write (write_at st.prev (first zs none) (last ys none)) r none)
            (write (write_at st.next (last ys none) a) r none) none (ys ++ zs) none)
        (sym behind) (cleared st r ys zs listed)))

-- The ends of the list without the one that was taken out.
head_without :
    (r : ℕ) (ys zs : List ℕ) (iflist before behind : Option ℕ)
    → iflist ≡ first (ys ++ (r ∷ zs)) none
    → before ≡ last ys none
    → behind ≡ first zs none
    → ◌≡◌ {A = Option ℕ}
        (elim before [ some p ↦ iflist | none ↦ if is_at iflist r then behind else iflist ])
        (first (ys ++ zs) none)
head_without r [] zs iflist before behind h b k =
    let self : (r == r) ≡ true = ground arith in rw (b, h, self) k
head_without r (y ∷ ys) zs iflist before behind h b k = let (q, e) = last-some y ys in rw (b, e) h

tail_without :
    (r : ℕ) (ys zs : List ℕ) (ifend before behind : Option ℕ)
    → ifend ≡ last (ys ++ (r ∷ zs)) none
    → behind ≡ first zs none
    → before ≡ last ys none
    → ◌≡◌ {A = Option ℕ}
        (elim behind [ some n ↦ ifend | none ↦ if is_at ifend r then before else ifend ])
        (last (ys ++ zs) none)
tail_without r ys [] ifend before behind h b k =
    let self : (r == r) ≡ true = ground arith in
    let e : ifend ≡ some r = h ∙ last-append ys (r ∷ []) none in rw (b, e, self, append-nil ys) k
tail_without r ys (z ∷ zs) ifend before behind h b k =
    rw b (h ∙ last-append ys (r ∷ z ∷ zs) none ∙ sym (last-append ys (z ∷ zs) none))

-- An interface of the list is taken out of it: the pointers lead past it in both directions, the
-- others stay in their order, and its own pointers are NULL.
pub iflist_extract-IsListed :
    (st : Links) (r : ℕ) (ys zs : List ℕ)
    → IsListed st (ys ++ (r ∷ zs))
    → IsListed (extra_iflist_extract st r) (ys ++ zs)
      × ((extra_iflist_extract st r).prev r ≡ none)
      × ((extra_iflist_extract st r).next r ≡ none)
unfolding extra_iflist_extract
iflist_extract-IsListed st r ys zs listed =
    let own = IsChain-back st.prev st.next ys (r ∷ zs) none none listed.chained in
    let before : st.prev r ≡ last ys none = own.0 in
    let behind : st.next r ≡ first zs none = own.1 in
    let apart_ys = distinct-IsApart r ys zs listed.distinct in
    let apart_zs = (IsDistinct-parts ys (r ∷ zs) listed.distinct).1.0 in
    let next1 = write_at st.next (st.prev r) (st.next r) in
    let prev1 = write_at st.prev (next1 r) (st.prev r) in
    let next_r : next1 r ≡ first zs none =
      rw before (write_at-last st.next (st.next r) r ys apart_ys ∙ behind) in
    let prev_r : prev1 r ≡ last ys none =
      rw next_r (write_at_first st.prev (st.prev r) r zs apart_zs ∙ before) in
    (
      record {
        chained = taken_out st r ys zs listed before behind next_r;
        head = head_without r ys zs st.iflist (st.prev r) (next1 r) listed.head before next_r;
        tail = tail_without r ys zs st.ifend (prev1 r) (next1 r) listed.tail next_r prev_r;
        distinct = remaining st r ys zs listed;
      },
      write_self prev1 r none,
      write_self next1 r none,
    )
