-- ===== src/Mux/Receive/Parts.antt =====
-- The header of a frame in the receiver's buffer, its data and its end.
use chan_extra.Prelude.{
  ℕ, ◌+◌, ◌*◌, ◌/◌, ◌%◌, ◌^◌, ◌≤◌, ◌<◌, ◌≡◌, refl, ap₂, drop, ◌∙◌, inl, inr, true, false, List, ◌∷◌,
  ◌++◌, arith, bit_and, bit_or, ltb, u8, length, IsByte, All, Bool-cases, take-append, drop-append,
  length-append, take,
}
use chan_extra.Mux.Fcs.{fcs_step, fcs_loop, gsm0710_make_fcs}
use chan_extra.Mux.Fcs.Laws.{check_iff, make_fcs-IsByte}
use chan_extra.Mux.Ring.{Buffer, inc}
use chan_extra.Mux.Ring.View.{view, IsBuffer, Holds, held_head}
use chan_extra.Mux.Receive.{
  Header, Attempt, f_flag, frame_is, read_header, read_data, after_data, read_frame,
}
use chan_extra.Mux.Receive.Data.{read_data-view}
use chan_extra.Mux.Send.{address, header}
use chan_extra.Mux.Send.Octets.{address-channel, short_length, long_length}

-- What the header of a frame is read as, with `ys` after it.
pub record IsHeader (b : Buffer) (channel type n : ℕ) (ys : List ℕ) (h : Header) : Type 0 where
  pub same_channel : h.channel ≡ channel % 64
  pub same_control : h.control ≡ type
  pub same_length : h.data_length ≡ n
  pub same_fcs : h.fcs ≡ fcs_loop 0xff (header channel type n)
  pub same_needed : h.needed ≡ length (header channel type n) + 2 + n
  pub data_next : Holds b h.next ys

read_header-short :
    (b : Buffer) (channel type n : ℕ) (ys : List ℕ)
    → IsBuffer b
    → channel < 256
    → n < 128
    → Holds b b.readp (header channel type n ++ ys)
    → IsHeader b channel type n ys (read_header b)
unfolding header read_header fcs_loop
read_header-short b channel type n ys wf hc hn h =
    let short : ltb 127 n ≡ false = ground arith in
    let (ac, ab, af) = address-channel channel hc in
    let (len, odd, lb) = short_length n hn in
    let l = bit_or 1 (u8 (n * 2)) in
    let h0 : Holds b b.readp (address channel ∷ type ∷ l ∷ ys) = rw short at h in
    let (e0, h1) = held_head b b.readp (address channel) (type ∷ l ∷ ys) wf h0 in
    let (e1, h2) = held_head b (inc b.readp) type (l ∷ ys) wf h1 in
    let (e2, h3) = held_head b (inc (inc b.readp)) l ys wf h2 in
    rw (e0, e1, e2, odd)
      (record {
        same_channel = ac;
        same_control = refl;
        same_length = len;
        same_fcs = rw short refl;
        same_needed = rw (short, len) refl;
        data_next = h3;
      })

read_header-long :
    (b : Buffer) (channel type n : ℕ) (ys : List ℕ)
    → IsBuffer b
    → channel < 256
    → 127 < n
    → n ≤ 512
    → Holds b b.readp (header channel type n ++ ys)
    → IsHeader b channel type n ys (read_header b)
unfolding header read_header fcs_loop
read_header-long b channel type n ys wf hc hl hn h =
    let long : ltb 127 n ≡ true = ground arith in
    let (ac, ab, af) = address-channel channel hc in
    let (len, even, lb, mb) = long_length n hn in
    let l = u8 (bit_and 127 n * 2) in
    let m = bit_and 32640 n / 2 ^ 7 in
    let h0 : Holds b b.readp (address channel ∷ type ∷ l ∷ m ∷ ys) = rw long at h in
    let (e0, h1) = held_head b b.readp (address channel) (type ∷ l ∷ m ∷ ys) wf h0 in
    let (e1, h2) = held_head b (inc b.readp) type (l ∷ m ∷ ys) wf h1 in
    let (e2, h3) = held_head b (inc (inc b.readp)) l (m ∷ ys) wf h2 in
    let (e3, h4) = held_head b (inc (inc (inc b.readp))) m ys wf h3 in
    rw (e0, e1, e2, e3, even)
      (record {
        same_channel = ac;
        same_control = refl;
        same_length = len;
        same_fcs = rw long refl;
        same_needed = rw (long, len) refl;
        data_next = h4;
      })

header-IsByte :
    (channel type n : ℕ) → channel < 256 → type < 256 → n ≤ 512 → All IsByte (header channel type n)
unfolding header
header-IsByte channel type n hc ht hn =
    let (ac, ab, af) = address-channel channel hc in
    elim (Bool-cases (ltb 127 n)) [
      | inl long ↦ let (len, even, lb, mb) = long_length n hn in rw long (ab, (ht, (lb, (mb, tt))))
      | inr short ↦
          let (len, odd, lb) = short_length n (ground arith) in rw short (ab, (ht, (lb, tt)))
    ]

pub read_header_lem :
    (b : Buffer) (channel type n : ℕ) (ys : List ℕ)
    → IsBuffer b
    → channel < 256
    → n ≤ 512
    → Holds b b.readp (header channel type n ++ ys)
    → IsHeader b channel type n ys (read_header b)
read_header_lem b channel type n ys wf hc hn h = elim (Bool-cases (ltb 127 n)) [
  | inl long ↦ read_header-long b channel type n ys wf hc (ground arith) hn h
  | inr short ↦ read_header-short b channel type n ys wf hc (ground arith) h
]

-- The buffer after a frame that is received.
pub record IsReceived (b : Buffer) (rest : List ℕ) (b' : Buffer) : Type 0 where
  pub is_buffer : IsBuffer b'
  pub left : view b'.octets b'.readp b'.writep ≡ rest
  pub counted : b'.received_count ≡ b.received_count + 1
  pub none_dropped : b'.dropped_count ≡ b.dropped_count

abbrev pub end_of : ℕ → ℕ → ℕ → List ℕ → List ℕ
end_of channel type n rest = gsm0710_make_fcs (header channel type n) ∷ f_flag ∷ rest

pub read_frame_lem :
    (b : Buffer) (channel type : ℕ) (input rest : List ℕ) (h : Header)
    → IsBuffer b
    → channel < 256
    → type < 256
    → frame_is 3 type ≡ false
    → length input ≤ 512
    → IsHeader b channel type (length input) (input ++ end_of channel type (length input) rest) h
    → (b' : Buffer) × (read_frame b h
        ≡ Attempt.whole (record { channel = channel % 64; control = type; octets = input }) b')
      × IsReceived b rest b'
unfolding read_frame
read_frame_lem b channel type input rest h wf hc ht not_ui hn is =
    let n = length input in
    let tail = end_of channel type n rest in
    let at = is.data_next in
    let fits : h.data_length ≤ length (view b.octets h.next b.writep) =
      rw (is.same_length, at.held, length-append input tail) (omega arith) in
    let (taken, after, inside) =
      read_data-view b h.next h.data_length wf.size at.inside wf.writep_inside fits in
    let octets : read_data b h.next h.data_length ≡ input =
      taken ∙ ap₂ (λ k l. take k l) is.same_length at.held ∙ take-append input tail in
    let p = after_data h.next h.data_length in
    let h0 : Holds b p tail = record {
      inside = inside;
      held = after ∙ ap₂ (λ k l. drop k l) is.same_length at.held ∙ drop-append input tail;
    } in
    let (e0, h1) = held_head b p (gsm0710_make_fcs (header channel type n)) (f_flag ∷ rest) wf h0 in
    let (e1, h2) = held_head b (inc p) f_flag rest wf h1 in
    let bytes = header-IsByte channel type n hc ht hn in
    let right : fcs_step (fcs_loop 0xff (header channel type n))
          (gsm0710_make_fcs (header channel type n))
        ≡ 0xcf =
      (check_iff (header channel type n) (gsm0710_make_fcs (header channel type n)) bytes
          (make_fcs-IsByte (header channel type n))).1
        refl in
    let b' : Buffer = record b { received_count = b.received_count + 1; readp = inc (inc p) } in
    (
      b',
      rw (octets, is.same_control, not_ui, is.same_fcs, e0, right, e1, is.same_channel) refl,
      record {
        is_buffer = record {
          size = wf.size;
          readp_inside = h2.inside;
          writep_inside = wf.writep_inside;
        };
        left = h2.held;
        counted = refl;
        none_dropped = refl;
      },
    )
