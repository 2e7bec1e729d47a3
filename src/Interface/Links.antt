-- ===== src/Interface/Links.antt =====
-- The list of interfaces: `extra_iflist_insert` and `extra_iflist_extract` of
-- src/chan_extra/src/chan_extra.c. An interface (struct extra_pvt) is its reference.
use chan_extra.Prelude.{
  ℕ, zero, suc, ℤ, less, Bool, true, false, Option, none, some, ◌==◌, if◌then◌else◌,
}

-- The fields `channel`, `span`, `manages_span_alarms`, `prev`, `next` and `which_iflist` of the
-- interfaces, by reference, with `iflist` and `ifend`. `listed` stands for EXTRA_IFLIST_MAIN.
pub record Links : Type 0 where
  pub channel : ℕ → ℤ
  pub span : ℕ → ℕ
  pub manages_span_alarms : ℕ → Bool
  pub prev : ℕ → Option ℕ
  pub next : ℕ → Option ℕ
  pub listed : ℕ → Bool
  pub iflist : Option ℕ
  pub ifend : Option ℕ

-- A field of one interface is written.
abbrev pub write {ℓ} : {A : Type ℓ} → (ℕ → A) → ℕ → A → ℕ → A
write f k v x = if x == k then v else f x

-- A field of the interface that a pointer is to, where there is one.
abbrev pub write_at {ℓ} : {A : Type ℓ} → (ℕ → A) → Option ℕ → A → ℕ → A
write_at f none v = f
write_at f (some k) v = write f k v

abbrev pub or_else : Option ℕ → Option ℕ → Option ℕ
or_else none o = o
or_else (some k) o = some k

-- The new interface `r` goes before `cur`.
unfoldable pub insert_before : Links → ℕ → ℕ → Links
insert_before st r cur =
    let before = st.prev cur in
    record st {
      prev = write (write st.prev r before) cur (some r);
      next = write_at (write st.next r (some cur)) before (some r);
      iflist = elim before [ none ↦ some r | some p ↦ st.iflist ];
    }

unfoldable pub insert_end : Links → ℕ → Links
insert_end st r = record st {
  prev = write st.prev r st.ifend;
  next = write_at (write st.next r none) st.ifend (some r);
  ifend = some r;
  iflist = or_else st.iflist (some r);
}

-- The loop from `cur` on, with as many rounds as interfaces and one.
unfoldable pub insert_loop : ℕ → Links → ℕ → Option ℕ → Links
unfolding insert_before insert_end
insert_loop n st r none = insert_end st r
insert_loop zero st r (some cur) = st
insert_loop (suc n) st r (some cur) = elim (less (st.channel r) (st.channel cur)) [
  | true ↦ insert_before st r cur
  | false ↦ insert_loop n st r (st.next cur)
]

unfoldable pub extra_iflist_insert : ℕ → Links → ℕ → Links
unfolding insert_loop
extra_iflist_insert n st r =
    insert_loop n (record st { listed = write st.listed r true }) r st.iflist

abbrev pub is_at : Option ℕ → ℕ → Bool
is_at none r = false
is_at (some k) r = k == r

-- Out of the forward chain, then out of the reverse one, whose ends are in the maps as they are by
-- then.
unfoldable pub extra_iflist_extract : Links → ℕ → Links
extra_iflist_extract st r =
    let next1 = write_at st.next (st.prev r) (st.next r) in
    let iflist1 : Option ℕ = elim (st.prev r) [
      | some p ↦ st.iflist
      | none ↦ if is_at st.iflist r then next1 r else st.iflist
    ] in
    let prev1 = write_at st.prev (next1 r) (st.prev r) in
    let ifend1 : Option ℕ = elim (next1 r) [
      | some n ↦ st.ifend
      | none ↦ if is_at st.ifend r then prev1 r else st.ifend
    ] in
    record st {
      iflist = iflist1;
      ifend = ifend1;
      listed = write st.listed r false;
      prev = write prev1 r none;
      next = write next1 r none;
    }
