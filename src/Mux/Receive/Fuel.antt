-- ===== src/Mux/Receive/Fuel.antt =====
-- Every frame that is dropped or received makes the receiver's buffer shorter, so that the calls
-- that `gsm0710_buffer_get_frame` has are enough.
use chan_extra.Prelude.{
  ℕ, zero, suc, ◌+◌, ◌-◌, ◌≤◌, ◌<◌, ◌≡◌, refl, ap, inl, inr, not, Option, none, some, arith,
  bit_and, ltb, ◌==◌, if◌then◌else◌, ◌&&◌, ◌||◌, get_or, Bool-cases,
}
use chan_extra.Mux.Fcs.{fcs_step, fcs_loop}
use chan_extra.Mux.Ring.{Buffer, buffer_size, inc, gsm0710_buffer_length}
use chan_extra.Mux.Ring.View.{IsBuffer}
use chan_extra.Mux.Receive.{
  Header, Attempt, f_flag, frame_is, find_flag, skip_flags, read_header, read_data, after_data,
  drop_frame, read_frame, attempt, get_frame, gsm0710_buffer_get_frame,
}

-- The octets from `p` up to `w`.
unfoldable dist : ℕ → ℕ → ℕ
dist p w = if ltb w p then buffer_size - (p - w) else w - p

length-dist : (b : Buffer) → gsm0710_buffer_length b ≡ dist b.readp b.writep
unfolding gsm0710_buffer_length dist
length-dist b = refl

dist-inc :
    (p w : ℕ)
    → p < buffer_size
    → w < buffer_size
    → 0 < dist p w
    → (dist (inc p) w + 1 ≡ dist p w) × (inc p < buffer_size)
unfolding dist inc
dist-inc p w hp hw h = ground arith

dist-after_data :
    (p w n : ℕ)
    → p < buffer_size
    → w < buffer_size
    → n ≤ dist p w
    → (dist (after_data p n) w + n ≡ dist p w) × (after_data p n < buffer_size)
unfolding dist after_data
dist-after_data p w n hp hw h = ground arith

-- `b'` is `b` with `n` octets less, or more than that.
record IsShorter (n : ℕ) (b b' : Buffer) : Type 0 where
  is_buffer : IsBuffer b'
  shorter : dist b'.readp b'.writep + n ≤ dist b.readp b.writep

moved : (b : Buffer) (p : ℕ) → IsBuffer b → p < buffer_size → IsBuffer (record b { readp = p })
moved b p wf hp = record { size = wf.size; readp_inside = hp; writep_inside = wf.writep_inside }

find_flag-IsShorter : (n : ℕ) (b : Buffer) → IsBuffer b → IsShorter 0 b (find_flag n b)
unfolding find_flag
find_flag-IsShorter zero b wf = record { is_buffer = wf; shorter = omega arith }
find_flag-IsShorter (suc n) b wf =
    elim (Bool-cases (not b.flag_found && ltb 0 (gsm0710_buffer_length b))) [
      | inl more ↦
          let some_left : 0 < dist b.readp b.writep = ground (arith, length-dist b) in
          let (one, inside) =
            dist-inc b.readp b.writep wf.readp_inside wf.writep_inside some_left in
          let b' : Buffer = record b {
            flag_found = (get_or b.octets b.readp 0 == f_flag) || b.flag_found;
            readp = inc b.readp;
          } in
          let rest =
            find_flag-IsShorter n b' (record {
              size = wf.size;
              readp_inside = inside;
              writep_inside = wf.writep_inside;
            }) in
          let le = rest.shorter in
          rw more (record { is_buffer = rest.is_buffer; shorter = omega arith })
      | inr done ↦ rw done (record { is_buffer = wf; shorter = omega arith })
    ]

skip_flags-IsShorter : (n : ℕ) (b : Buffer) → IsBuffer b → IsShorter 0 b (skip_flags n b)
unfolding skip_flags
skip_flags-IsShorter zero b wf = record { is_buffer = wf; shorter = omega arith }
skip_flags-IsShorter (suc n) b wf =
    elim (Bool-cases (ltb 0 (gsm0710_buffer_length b) && (get_or b.octets b.readp 0 == f_flag))) [
      | inl more ↦
          let some_left : 0 < dist b.readp b.writep = ground (arith, length-dist b) in
          let (one, inside) =
            dist-inc b.readp b.writep wf.readp_inside wf.writep_inside some_left in
          let rest =
            skip_flags-IsShorter n (record b { readp = inc b.readp })
              (moved b (inc b.readp) wf inside) in
          let le = rest.shorter in
          rw more (record { is_buffer = rest.is_buffer; shorter = omega arith })
      | inr done ↦ rw done (record { is_buffer = wf; shorter = omega arith })
    ]

-- The header takes three octets or four, and counts them.
record IsAfter (b : Buffer) (h : Header) : Type 0 where
  inside : h.next < buffer_size
  taken : dist h.next b.writep + h.needed ≡ dist b.readp b.writep + 2 + h.data_length
  some_taken : dist h.next b.writep + 3 ≤ dist b.readp b.writep

read_header-IsAfter :
    (b : Buffer) → IsBuffer b → 5 ≤ dist b.readp b.writep → IsAfter b (read_header b)
unfolding read_header
read_header-IsAfter b wf h =
    let w = b.writep in
    let hw = wf.writep_inside in
    let (d1, i1) = dist-inc b.readp w wf.readp_inside hw (omega arith) in
    let (d2, i2) = dist-inc (inc b.readp) w i1 hw (omega arith) in
    let (d3, i3) = dist-inc (inc (inc b.readp)) w i2 hw (omega arith) in
    let (d4, i4) = dist-inc (inc (inc (inc b.readp))) w i3 hw (omega arith) in
    elim (Bool-cases (bit_and (get_or b.octets (inc (inc b.readp)) 0) 1 == 0)) [
      | inl long ↦ rw long (record { inside = i4; taken = omega arith; some_taken = omega arith })
      | inr short ↦ rw short (record { inside = i3; taken = omega arith; some_taken = omega arith })
    ]

-- What a look at the buffer leaves, where it took something out.
unfoldable left_by : Attempt → Option Buffer
left_by (Attempt.missing b) = none
left_by (Attempt.dropped b) = some b
left_by (Attempt.whole f b) = some b

same_some : (b x y : Buffer) → some x ≡ some y → IsShorter 1 b x → IsShorter 1 b y
same_some b x y e h = let p : x ≡ y = cc in rw p at h

read_frame-IsShorter :
    (b : Buffer) (h : Header) (b' : Buffer)
    → IsBuffer b
    → IsAfter b h
    → h.needed ≤ dist b.readp b.writep
    → left_by (read_frame b h) ≡ some b'
    → IsShorter 1 b b'
unfolding read_frame left_by drop_frame
read_frame-IsShorter b h b' wf after room e =
    let hw = wf.writep_inside in
    let t = after.taken in
    let s = after.some_taken in
    let (d0, i0) = dist-after_data h.next b.writep h.data_length after.inside hw (omega arith) in
    let p = after_data h.next h.data_length in
    let (d1, i1) = dist-inc p b.writep i0 hw (omega arith) in
    let (d2, i2) = dist-inc (inc p) b.writep i1 hw (omega arith) in
    let octets = read_data b h.next h.data_length in
    let fcs = if frame_is 3 h.control then fcs_loop h.fcs octets else h.fcs in
    elim (Bool-cases (fcs_step fcs (get_or b.octets p 0) == 0xcf)) [
      | inl right ↦ elim (Bool-cases (get_or b.octets (inc p) 0 == f_flag)) [
        | inl ended ↦ same_some b _ b' (rw (right, ended) at e) (record {
          is_buffer = record { size = wf.size; readp_inside = i2; writep_inside = hw };
          shorter = omega arith;
        })
        | inr unended ↦ same_some b _ b' (rw (right, unended) at e) (record {
          is_buffer = record { size = wf.size; readp_inside = i1; writep_inside = hw };
          shorter = omega arith;
        })
      ]
      | inr wrong ↦ same_some b _ b' (rw wrong at e) (record {
        is_buffer = record { size = wf.size; readp_inside = i0; writep_inside = hw };
        shorter = omega arith;
      })
    ]

attempt-IsShorter : (b b' : Buffer) → IsBuffer b → left_by (attempt b) ≡ some b' → IsShorter 1 b b'
unfolding attempt left_by
attempt-IsShorter b b' wf e =
    let n = gsm0710_buffer_length b in
    let b1 = find_flag n b in
    let f1 = find_flag-IsShorter n b wf in
    let b2 = skip_flags (gsm0710_buffer_length b1) b1 in
    let f2 = skip_flags-IsShorter (gsm0710_buffer_length b1) b1 f1.is_buffer in
    let l1 = f1.shorter in
    let l2 = f2.shorter in
    elim (Bool-cases b1.flag_found) [
      | inr not_found ↦ absurd (let e' = rw not_found at e in ground (arith, e'))
      | inl found ↦ elim (Bool-cases (ltb (gsm0710_buffer_length b2) 5)) [
        | inl short ↦ absurd (let e' = rw (found, short) at e in ground (arith, e'))
        | inr five ↦
            let h = read_header b2 in
            let five' : 5 ≤ dist b2.readp b2.writep = ground (arith, length-dist b2) in
            elim (Bool-cases (ltb (gsm0710_buffer_length b2) h.needed)) [
              | inl short ↦ absurd (let e' = rw (found, five, short) at e in ground (arith, e'))
              | inr room ↦
                  let room' : h.needed ≤ dist b2.readp b2.writep = ground (arith, length-dist b2) in
                  let r =
                    read_frame-IsShorter b2 h b' f2.is_buffer
                      (read_header-IsAfter b2 f2.is_buffer five') room'
                      (rw (found, five, room) at e) in
                  let l3 = r.shorter in record { is_buffer = r.is_buffer; shorter = omega arith }
            ]
      ]
    ]

get_frame_any :
    (n m : ℕ) (b : Buffer)
    → IsBuffer b
    → dist b.readp b.writep < n
    → dist b.readp b.writep < m
    → get_frame n b ≡ get_frame m b
unfolding get_frame left_by
get_frame_any zero m b wf hn hm = absurd (omega arith)
get_frame_any (suc n) zero b wf hn hm = absurd (omega arith)
get_frame_any (suc n) (suc m) b wf hn hm =
    go (attempt b) refl (λ b' wf' k l. get_frame_any n m b' wf' k l)
  where
    go :
        (a : Attempt)
        → attempt b ≡ a
        → ((b' : Buffer)
            → IsBuffer b'
            → dist b'.readp b'.writep < n
            → dist b'.readp b'.writep < m
            → get_frame n b' ≡ get_frame m b')
        → get_frame (suc n) b ≡ get_frame (suc m) b
    go (Attempt.missing b') e rest = rw (get_frame, e) refl
    go (Attempt.whole f b') e rest = rw (get_frame, e) refl
    go (Attempt.dropped b') e rest =
        let s = attempt-IsShorter b b' wf (ap left_by e) in
        let l = s.shorter in rw (get_frame, e) (rest b' s.is_buffer (omega arith) (omega arith))

-- However many calls of itself the function is allowed beyond the number of octets that the buffer
-- holds, its result is that of `gsm0710_buffer_get_frame`, which therefore never stops for want of
-- calls.
pub get_frame_enough :
    (fuel : ℕ) (b : Buffer)
    → IsBuffer b
    → gsm0710_buffer_length b < fuel
    → get_frame fuel b ≡ gsm0710_buffer_get_frame b
unfolding gsm0710_buffer_get_frame
get_frame_enough fuel b wf h =
    get_frame_any fuel (gsm0710_buffer_length b + 1) b wf (omega (arith, length-dist b))
      (omega (arith, length-dist b))
