-- ===== src/Mux/Receive/Data.antt =====
-- The data of a frame, taken out of the receiver's buffer.
use chan_extra.Prelude.{
  ℕ, ◌+◌, ◌-◌, ◌≤◌, ◌<◌, ◌≡◌, refl, true, false, arith, length, take, drop, ltb, ◌==◌,
  length-take_le, length-append, length-drop, drop-drop, drop_all, inl, inr, Bool-cases,
  take-take_le, drop-take_le, take-append_le, drop-append_le, take-append_ge, drop-append_ge,
}
use chan_extra.Mux.Ring.{Buffer, buffer_size}
use chan_extra.Mux.Ring.View.{view}
use chan_extra.Mux.Receive.{read_data, after_data}

-- What is read from `p` on are the first octets up to `w`, and what is behind them is left.
pub read_data-view :
    (b : Buffer) (p n : ℕ)
    → length b.octets ≡ buffer_size
    → p < buffer_size
    → b.writep < buffer_size
    → n ≤ length (view b.octets p b.writep)
    → (read_data b p n ≡ take n (view b.octets p b.writep))
      × (view b.octets (after_data p n) b.writep ≡ drop n (view b.octets p b.writep))
      × (after_data p n < buffer_size)
unfolding view read_data after_data
read_data-view b p n size hp hw h = elim (Bool-cases (ltb b.writep p)) [
  | inl wraps ↦
      let o = b.octets in
      let w = b.writep in
      let ld = length-drop p o in
      let lt = length-take_le w o (omega arith) in
      let hn : n ≤ length (drop p o) + length (take w o) =
        rw (wraps, length-append (drop p o) (take w o)) at h in
      elim (Bool-cases (ltb (2048 - p) n)) [
        | inl both ↦
            let end : length (drop p o) ≡ 2048 - p = omega arith in
            let k = n - (2048 - p) in
            let straight : ltb w k ≡ false = ground arith in
            let le : length (drop p o) ≤ n = ground arith in
            let m : k ≤ w = ground arith in
            rw
              (
                wraps,
                both,
                straight,
                take-append_le n (drop p o) (take w o) le,
                drop-append_le n (drop p o) (take w o) le,
                end,
                take-take_le k w o m,
                drop-take_le k w o m,
              )
              (refl, refl, ground arith)
        | inr one ↦
            let le : n ≤ length (drop p o) = ground arith in
            elim (Bool-cases (p + n == 2048)) [
              | inl last ↦
                  let z : ltb w 0 ≡ false = ground arith in
                  let z' : w - 0 ≡ w = omega arith in
                  rw
                    (
                      wraps,
                      one,
                      take-append_ge n (drop p o) (take w o) le,
                      drop-append_ge n (drop p o) (take w o) le,
                      drop-drop p n o,
                      drop_all (p + n) o (ground arith),
                      last,
                      z,
                      z',
                    )
                    (refl, refl, ground arith)
              | inr more ↦
                  let still : ltb w (p + n) ≡ true = ground arith in
                  rw
                    (
                      wraps,
                      one,
                      more,
                      still,
                      take-append_ge n (drop p o) (take w o) le,
                      drop-append_ge n (drop p o) (take w o) le,
                      drop-drop p n o,
                    )
                    (refl, refl, ground arith)
            ]
      ]
  | inr straight ↦
      let o = b.octets in
      let w = b.writep in
      let ld = length-drop p o in
      let hn : n ≤ w - p = rw (straight, length-take_le (w - p) (drop p o) (ground arith)) at h in
      let one : ltb (2048 - p) n ≡ false = ground arith in
      let more : (p + n == 2048) ≡ false = ground arith in
      let still : ltb w (p + n) ≡ false = ground arith in
      let k : w - p - n ≡ w - (p + n) = omega arith in
      rw
        (
          straight,
          one,
          more,
          still,
          take-take_le n (w - p) (drop p o) hn,
          drop-take_le n (w - p) (drop p o) hn,
          drop-drop p n o,
          k,
        )
        (refl, refl, ground arith)
]
