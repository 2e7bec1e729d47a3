-- ===== src/Mux/Ring/View.antt =====
-- The octets that a receiver's buffer holds, and what writing and reading do to them.
use chan_extra.Prelude.{
  ℕ, zero, suc, ◌+◌, ◌-◌, ◌<◌, ◌≡◌, ◌≢◌, refl, ap, ◌∙◌, sym, true, false, List, [], ◌∷◌, ◌++◌,
  arith, length, take, drop, get_or, if◌then◌else◌, ltb, ◌==◌, length-take_le, length-append,
  length-drop, drop_all, inl, inr, Bool-cases,
}
use chan_extra.Mux.Ring.{Buffer, buffer_size, inc, gsm0710_buffer_length}

-- A buffer as `gsm0710_init` makes it and all operations leave it.
pub record IsBuffer (b : Buffer) : Type 0 where
  pub size : length b.octets ≡ buffer_size
  pub readp_inside : b.readp < buffer_size
  pub writep_inside : b.writep < buffer_size

-- The octets from `r` up to `w`.
unfoldable pub view : List ℕ → ℕ → ℕ → List ℕ
view octets r w = if ltb w r then drop r octets ++ take w octets else take (w - r) (drop r octets)

pub length-view :
    (b : Buffer) → IsBuffer b → length (view b.octets b.readp b.writep) ≡ gsm0710_buffer_length b
unfolding view gsm0710_buffer_length
length-view b wf = elim (Bool-cases (ltb b.writep b.readp)) [
  | inl wraps ↦
      let size = wf.size in
      let hr = wf.readp_inside in
      rw
        (
          wraps,
          length-append (drop b.readp b.octets) (take b.writep b.octets),
          length-drop b.readp b.octets,
          length-take_le b.writep b.octets (ground arith),
        )
        (ground arith)
  | inr straight ↦
      let size = wf.size in
      let hw = wf.writep_inside in
      let d = length-drop b.readp b.octets in
      rw (straight, length-take_le (b.writep - b.readp) (drop b.readp b.octets) (ground arith)) refl
]

drop-get_or : (xs : List ℕ) (i : ℕ) → i < length xs → drop i xs ≡ get_or xs i 0 ∷ drop (i + 1) xs
drop-get_or [] i h = absurd (omega arith)
drop-get_or (x ∷ xs) zero h = refl
drop-get_or (x ∷ xs) (suc i) h =
    let n : suc i + 1 ≡ suc (i + 1) = omega arith in rw n (drop-get_or xs i (omega arith))

view-zero : (octets : List ℕ) (w : ℕ) → view octets 0 w ≡ take w octets
unfolding view
view-zero octets w =
    let none_before : ltb w 0 ≡ false = ground arith in
    let all : w - 0 ≡ w = omega arith in rw (none_before, all) refl

-- The octet at `r` is the first of those from `r` on.
pub view-inc :
    (octets : List ℕ) (r w : ℕ)
    → length octets ≡ buffer_size
    → r < buffer_size
    → w < buffer_size
    → r ≢ w
    → view octets r w ≡ get_or octets r 0 ∷ view octets (inc r) w
unfolding view inc
view-inc octets r w size hr hw ne = elim (Bool-cases (r + 1 == 2048)) [
  | inl last ↦
      let end : drop (r + 1) octets ≡ [] = drop_all (r + 1) octets (ground arith) in
      let before : ltb w r ≡ true = ground arith in
      rw (before, last, drop-get_or octets r (omega arith), end)
        (ap (λ l. get_or octets r 0 ∷ l) (sym (view-zero octets w)))
  | inr more ↦ elim (Bool-cases (ltb w r)) [
    | inl wraps ↦
        let still : ltb w (r + 1) ≡ true = ground arith in
        rw (wraps, more, still, drop-get_or octets r (omega arith)) refl
    | inr straight ↦
        let still : ltb w (r + 1) ≡ false = ground arith in
        let n : w - r ≡ suc (w - (r + 1)) = ground arith in
        rw (straight, more, still, n, drop-get_or octets r (omega arith)) refl
  ]
]

pub inc-inside : (p : ℕ) → p < buffer_size → inc p < buffer_size
unfolding inc
inc-inside p h = ground arith

view_empty : (octets : List ℕ) (r : ℕ) → view octets r r ≡ []
unfolding view
view_empty octets r =
    let straight : ltb r r ≡ false = ground arith in
    let none_left : r - r ≡ 0 = omega arith in rw (straight, none_left) refl

-- From `p` on there are the octets `xs`.
pub record Holds (b : Buffer) (p : ℕ) (xs : List ℕ) : Type 0 where
  pub inside : p < buffer_size
  pub held : view b.octets p b.writep ≡ xs

pub held_head :
    (b : Buffer) (p x : ℕ) (xs : List ℕ)
    → IsBuffer b
    → Holds b p (x ∷ xs)
    → (get_or b.octets p 0 ≡ x) × Holds b (inc p) xs
held_head b p x xs wf h =
    let ne : p ≢ b.writep = λ e. absurd (
      let v : [] ≡ (x ∷ xs) =
        sym (view_empty b.octets p) ∙ ap (λ w. view b.octets p w) e ∙ h.held in
      ground (arith, v)) in
    let step = sym (view-inc b.octets p b.writep wf.size h.inside wf.writep_inside ne) ∙ h.held in
    (
      ap (λ l. get_or l 0 0) step,
      record { inside = inc-inside p h.inside; held = ap (drop 1) step },
    )
