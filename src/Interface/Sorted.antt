-- ===== src/Interface/Sorted.antt =====
-- The order of the list of interfaces.
use mathlib.Core.Path.{subst}
use chan_extra.Prelude.{
  ℕ, zero, suc, Option, none, some, ◌≤◌, ◌≡◌, refl, sym, ℤ, pos, negsuc, less, true, false, List,
  [], ◌∷◌, All, arith, inl, inr, Bool-cases, length,
}
use chan_extra.Interface.Links.{
  Links, write, extra_iflist_insert, insert_before, insert_end, insert_loop,
}
use chan_extra.Interface.Chain.{IsApart, IsListed}
use chan_extra.Interface.Insert.{insert_loop-IsListed, insert_sorted, sorted_further, sorted_here}

-- No interface has one with a lower channel behind it.
abbrev pub IsSorted : (ℕ → ℤ) → List ℕ → Type 0
IsSorted channel [] = Unit
IsSorted channel (x ∷ xs) = All (λ y. less (channel y) (channel x) ≡ false) xs × IsSorted channel xs

less_asym : (a b : ℤ) → less a b ≡ true → less b a ≡ false
less_asym (pos n) (pos k) h = ground arith
less_asym (pos n) (negsuc k) h = absurd (cc)
less_asym (negsuc n) (pos k) h = refl
less_asym (negsuc n) (negsuc k) h = ground arith

less_trans : (a b c : ℤ) → less a b ≡ true → less c b ≡ false → less c a ≡ false
less_trans (pos n) (pos k) (pos l) h e = ground arith
less_trans (pos n) (pos k) (negsuc l) h e = e
less_trans (pos n) (negsuc k) c h e = absurd (cc)
less_trans (negsuc n) (pos k) (pos l) h e = refl
less_trans (negsuc n) (pos k) (negsuc l) h e = absurd (cc)
less_trans (negsuc n) (negsuc k) (pos l) h e = refl
less_trans (negsuc n) (negsuc k) (negsuc l) h e = ground arith

above-All :
    (channel : ℕ → ℤ) (r z : ℕ) (zs : List ℕ)
    → less (channel r) (channel z) ≡ true
    → All (λ y. less (channel y) (channel z) ≡ false) zs
    → All (λ y. less (channel y) (channel r) ≡ false) zs
above-All channel r z [] h above = tt
above-All channel r z (y ∷ zs) h above =
    (less_trans (channel r) (channel z) (channel y) h above.0, above-All channel r z zs h above.1)

insert_above :
    (channel : ℕ → ℤ) (r z : ℕ) (zs : List ℕ)
    → less (channel r) (channel z) ≡ false
    → All (λ y. less (channel y) (channel z) ≡ false) zs
    → All (λ y. less (channel y) (channel z) ≡ false) (insert_sorted channel r zs)
insert_above channel r z [] h above = (h, tt)
insert_above channel r z (y ∷ zs) h above = elim (Bool-cases (less (channel r) (channel y))) [
  | inl here ↦ rw (sorted_here channel r y zs here) (h, above)
  | inr further ↦
      rw (sorted_further channel r y zs further) (above.0, insert_above channel r z zs h above.1)
]

insert_sorted-IsSorted :
    (channel : ℕ → ℤ) (r : ℕ) (zs : List ℕ)
    → IsSorted channel zs
    → IsSorted channel (insert_sorted channel r zs)
insert_sorted-IsSorted channel r [] h = (tt, tt)
insert_sorted-IsSorted channel r (z ∷ zs) h = elim (Bool-cases (less (channel r) (channel z))) [
  | inl here ↦
      rw (sorted_here channel r z zs here)
        ((less_asym (channel r) (channel z) here, above-All channel r z zs here h.0), h)
  | inr further ↦
      rw (sorted_further channel r z zs further)
        (insert_above channel r z zs further h.0, insert_sorted-IsSorted channel r zs h.1)
]

loop_channel :
    (n : ℕ) (st : Links) (r : ℕ) (o : Option ℕ) → (insert_loop n st r o).channel ≡ st.channel
unfolding insert_loop insert_before insert_end
loop_channel n st r none = refl
loop_channel zero st r (some cur) = refl
loop_channel (suc n) st r (some cur) = elim (Bool-cases (less (st.channel r) (st.channel cur))) [
  | inl here ↦ rw (insert_loop, here) refl
  | inr further ↦ rw (insert_loop, further) (loop_channel n st r (st.next cur))
]

-- An interface that is not in the list, which is sorted by channel, is put before the first with a
-- higher channel, or at the end where there is none: the list stays sorted, and its pointers lead
-- through the new one in both directions, given as many rounds as the list has interfaces.
pub iflist_insert-IsListed :
    (n : ℕ) (st : Links) (r : ℕ) (xs : List ℕ)
    → IsApart r xs
    → IsListed st xs
    → IsSorted st.channel xs
    → length xs ≤ n
    → IsListed (extra_iflist_insert n st r) (insert_sorted st.channel r xs)
      × IsSorted (extra_iflist_insert n st r).channel (insert_sorted st.channel r xs)
unfolding extra_iflist_insert
iflist_insert-IsListed n st r xs apart listed sorted enough =
    let st' : Links = record st { listed = write st.listed r true } in
    let same : IsListed st' xs = record {
      chained = listed.chained;
      head = listed.head;
      tail = listed.tail;
      distinct = listed.distinct;
    } in
    (
      subst (λ cur. IsListed (insert_loop n st' r cur) (insert_sorted st.channel r xs))
          (sym listed.head) (insert_loop-IsListed n st' r [] xs apart same enough),
      subst (λ c. IsSorted c (insert_sorted st.channel r xs)) (sym (loop_channel n st' r st.iflist))
          (insert_sorted-IsSorted st.channel r xs sorted),
    )
