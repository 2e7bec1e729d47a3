-- ===== src/Mux/Ring/Splice.antt =====
-- The octets of a receiver's buffer after a copy into it.
use chan_extra.Prelude.{
  ℕ, zero, suc, ◌+◌, ◌-◌, ◌≤◌, ◌<◌, ◌≡◌, refl, ap, true, false, List, [], ◌∷◌, ◌++◌, arith, length,
  take, drop, ltb, length-take_le, length-append, length-drop, drop-drop, drop_all, drop-take_le,
  take-append_le, drop-append_le, drop-append_ge, append-nil, append_assoc, take-append,
}
use chan_extra.Mux.Ring.{buffer_size, splice}
use chan_extra.Mux.Ring.View.{view}

pub length-splice :
    (octets : List ℕ) (at : ℕ) (input : List ℕ)
    → at + length input ≤ length octets
    → length (splice octets at input) ≡ length octets
unfolding splice
length-splice o p i h =
    let lt = length-take_le p o (omega arith) in
    let ld = length-drop (p + length i) o in
    let l1 = length-append (take p o) (i ++ drop (p + length i) o) in
    let l2 = length-append i (drop (p + length i) o) in omega arith

-- What is behind and before the octets written.
drop-splice :
    (octets : List ℕ) (at : ℕ) (input : List ℕ) (n : ℕ)
    → at + length input ≤ length octets
    → at + length input ≤ n
    → drop n (splice octets at input) ≡ drop n octets
unfolding splice
drop-splice o p i n h k =
    let lt = length-take_le p o (omega arith) in
    let m : n - p - length i + (p + length i) ≡ n = omega arith in
    let m' : p + length i + (n - p - length i) ≡ n = omega arith in
    rw
      (
        drop-append_le n (take p o) (i ++ drop (p + length i) o) (omega arith),
        lt,
        drop-append_le (n - p) i (drop (p + length i) o) (omega arith),
        drop-drop (p + length i) (n - p - length i) o,
        m',
      )
      refl

-- What is up to the end of the octets written.
take-splice :
    (octets : List ℕ) (at : ℕ) (input : List ℕ)
    → at + length input ≤ length octets
    → take (at + length input) (splice octets at input) ≡ take at octets ++ input
unfolding splice
take-splice o p i h =
    let lt = length-take_le p o (omega arith) in
    let m : p + length i - p ≡ length i = omega arith in
    rw
      (
        take-append_le (p + length i) (take p o) (i ++ drop (p + length i) o) (omega arith),
        lt,
        m,
        take-append i (drop (p + length i) o),
      )
      refl

drop-splice_before :
    (octets : List ℕ) (at : ℕ) (input : List ℕ) (n : ℕ)
    → at ≤ length octets
    → n ≤ at
    → drop n (splice octets at input)
      ≡ take (at - n) (drop n octets) ++ (input ++ drop (at + length input) octets)
unfolding splice
drop-splice_before o p i n h k =
    let lt = length-take_le p o h in
    rw
      (drop-append_ge n (take p o) (i ++ drop (p + length i) o) (omega arith), drop-take_le n p o k)
      refl

take-drop : (n : ℕ) (xs : List ℕ) → take n xs ++ drop n xs ≡ xs
take-drop zero xs = refl
take-drop (suc n) [] = refl
take-drop (suc n) (x ∷ xs) = ap (λ l. x ∷ l) (take-drop n xs)

-- The octets fit in one piece, and the buffer is not wrapped around before.
pub view-splice_wrapped :
    (o : List ℕ) (r w : ℕ) (i : List ℕ)
    → length o ≡ buffer_size
    → r < buffer_size
    → w < r
    → w + length i < r
    → view (splice o w i) r (w + length i) ≡ view o r w ++ i
unfolding view
view-splice_wrapped o r w i size hr h k =
    let wraps : ltb w r ≡ true = ground arith in
    let still : ltb (w + length i) r ≡ true = ground arith in
    rw
      (
        wraps,
        still,
        drop-splice o w i r (omega arith) (omega arith),
        take-splice o w i (omega arith),
        append_assoc (drop r o) (take w o) i,
      )
      refl

pub view-splice_straight :
    (o : List ℕ) (r w : ℕ) (i : List ℕ)
    → length o ≡ buffer_size
    → r ≤ w
    → w + length i < buffer_size
    → view (splice o w i) r (w + length i) ≡ view o r w ++ i
unfolding view
view-splice_straight o r w i size h k =
    let wraps : ltb w r ≡ false = ground arith in
    let still : ltb (w + length i) r ≡ false = ground arith in
    let ld = length-drop r o in
    let before = take (w - r) (drop r o) in
    let lt : length before ≡ w - r = length-take_le (w - r) (drop r o) (omega arith) in
    let m : w + length i - r - (w - r) ≡ length i = omega arith in
    rw
      (
        wraps,
        still,
        drop-splice_before o w i r (omega arith) h,
        take-append_le (w + length i - r) before (i ++ drop (w + length i) o) (omega arith),
        lt,
        m,
        take-append i (drop (w + length i) o),
      )
      refl

pub view-splice_end :
    (o : List ℕ) (r w : ℕ) (i : List ℕ)
    → length o ≡ buffer_size
    → r ≤ w
    → 0 < r
    → w + length i ≡ buffer_size
    → view (splice o w i) r 0 ≡ view o r w ++ i
unfolding view
view-splice_end o r w i size h pos k =
    let wraps : ltb w r ≡ false = ground arith in
    let still : ltb 0 r ≡ true = ground arith in
    rw
      (
        wraps,
        still,
        drop-splice_before o w i r (omega arith) h,
        drop_all (w + length i) o (omega arith),
        append-nil i,
        append-nil (take (w - r) (drop r o) ++ i),
      )
      refl

pub view-splice_around :
    (o : List ℕ) (r w : ℕ) (i : List ℕ) (c : ℕ)
    → length o ≡ buffer_size
    → r ≤ w
    → w + c ≡ buffer_size
    → c < length i
    → length i - c < r
    → view (splice (splice o w (take c i)) 0 (drop c i)) r (length i - c) ≡ view o r w ++ i
unfolding view
view-splice_around o r w i c size h k hc hr =
    let wraps : ltb w r ≡ false = ground arith in
    let still : ltb (length i - c) r ≡ true = ground arith in
    let lc : length (take c i) ≡ c = length-take_le c i (omega arith) in
    let lr : length (drop c i) ≡ length i - c = length-drop c i in
    let ls = length-splice o w (take c i) (omega arith) in
    let s = splice o w (take c i) in
    let z : 0 + length (drop c i) ≡ length i - c = omega arith in
    let ts : take (length i - c) (splice s 0 (drop c i)) ≡ drop c i =
      rw z at (take-splice s 0 (drop c i) (omega arith)) in
    let end : drop (w + length (take c i)) o ≡ [] =
      drop_all (w + length (take c i)) o (omega arith) in
    rw
      (
        wraps,
        still,
        ts,
        drop-splice s 0 (drop c i) r (omega arith) (omega arith),
        drop-splice_before o w (take c i) r (omega arith) h,
        end,
        append-nil (take c i),
        append_assoc (take (w - r) (drop r o)) (take c i) (drop c i),
        take-drop c i,
      )
      refl
