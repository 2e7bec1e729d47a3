-- ===== src/Mux/Ring/Write.antt =====
-- Writing to the receiver's buffer.
use chan_extra.Prelude.{
  ℕ, ◌+◌, ◌-◌, ◌≤◌, ◌<◌, ◌≡◌, refl, ◌∙◌, true, false, List, ◌++◌, arith, length, take, drop, ltb,
  ◌==◌, length-take_le, length-drop, take_all, inl, inr, Bool-cases, min,
}
use chan_extra.Mux.Ring.{
  Buffer, buffer_size, splice, gsm0710_buffer_free, gsm0710_buffer_length, gsm0710_buffer_write,
}
use chan_extra.Mux.Ring.View.{view, IsBuffer}
use chan_extra.Mux.Ring.Splice.{
  length-splice, view-splice_wrapped, view-splice_straight, view-splice_end, view-splice_around,
}

-- What the buffer is after a write of all of `input`.
pub record IsWritten (b : Buffer) (input : List ℕ) (b' : Buffer) (count : ℕ) : Type 0 where
  pub all_written : count ≡ length input
  pub is_buffer : IsBuffer b'
  pub same_readp : b'.readp ≡ b.readp
  pub same_flag : b'.flag_found ≡ b.flag_found
  pub joined : view b'.octets b.readp b'.writep ≡ view b.octets b.readp b.writep ++ input

room_wrapped :
    (b : Buffer) (n : ℕ) → n < gsm0710_buffer_free b → b.writep < b.readp → b.writep + n < b.readp
unfolding gsm0710_buffer_free
room_wrapped b n h k = ground arith

room_straight :
    (b : Buffer) (n : ℕ)
    → n < gsm0710_buffer_free b
    → b.readp ≤ b.writep
    → b.writep < buffer_size
    → b.writep + n < b.readp + buffer_size
unfolding gsm0710_buffer_free
room_straight b n h k l = ground arith

write_around :
    (b : Buffer) (input : List ℕ)
    → IsBuffer b
    → length input < gsm0710_buffer_free b
    → buffer_size - b.writep < length input
    → IsWritten b input (gsm0710_buffer_write b input).0 (gsm0710_buffer_write b input).1
unfolding gsm0710_buffer_write
write_around b i wf h k =
    let size = wf.size in
    let hr = wf.readp_inside in
    let hw = wf.writep_inside in
    let c = 2048 - b.writep in
    let not_wrapped : b.readp ≤ b.writep = elim (Bool-cases (ltb b.writep b.readp)) [
      | inl wraps ↦ absurd (let r = room_wrapped b (length i) h (ground arith) in omega arith)
      | inr straight ↦ ground arith
    ] in
    let room = room_straight b (length i) h not_wrapped hw in
    let count : min (length i) (gsm0710_buffer_free b) ≡ length i = omega arith in
    let test : ltb c (length i) ≡ true = ground arith in
    let ld : length (drop c i) ≡ length i - c = length-drop c i in
    let lt : length (take c i) ≡ c = length-take_le c i (omega arith) in
    let all : take (length i - c) (drop c i) ≡ drop c i =
      take_all (length i - c) (drop c i) (omega arith) in
    let s = splice b.octets b.writep (take c i) in
    let ls : length s ≡ length b.octets =
      length-splice b.octets b.writep (take c i) (omega arith) in
    rw (count, test, all)
      (record {
        all_written = refl;
        is_buffer = record {
          size = length-splice s 0 (drop c i) (omega arith) ∙ ls ∙ size;
          readp_inside = hr;
          writep_inside = omega arith;
        };
        same_readp = refl;
        same_flag = refl;
        joined =
            view-splice_around b.octets b.readp b.writep i c size not_wrapped (omega arith)
              (omega arith) (omega arith);
      })

write_once :
    (b : Buffer) (input : List ℕ)
    → IsBuffer b
    → length input < gsm0710_buffer_free b
    → length input ≤ buffer_size - b.writep
    → IsWritten b input (gsm0710_buffer_write b input).0 (gsm0710_buffer_write b input).1
unfolding gsm0710_buffer_write
write_once b i wf h k =
    let size = wf.size in
    let hr = wf.readp_inside in
    let hw = wf.writep_inside in
    let count : min (length i) (gsm0710_buffer_free b) ≡ length i = omega arith in
    let test : ltb (2048 - b.writep) (length i) ≡ false = ground arith in
    let all : take (length i) i ≡ i = take_all (length i) i (omega arith) in
    let ls = length-splice b.octets b.writep i (omega arith) in
    rw (count, test, all)
      (record {
        all_written = refl;
        is_buffer = record { size = ls ∙ size; readp_inside = hr; writep_inside = ground arith };
        same_readp = refl;
        same_flag = refl;
        joined = elim (Bool-cases (b.writep + length i == 2048)) [
          | inl end ↦
              let not_wrapped : b.readp ≤ b.writep = elim (Bool-cases (ltb b.writep b.readp)) [
                | inl wraps ↦
                    absurd (let r = room_wrapped b (length i) h (ground arith) in ground arith)
                | inr straight ↦ ground arith
              ] in
              let room = room_straight b (length i) h not_wrapped hw in
              rw end (
                view-splice_end b.octets b.readp b.writep i size not_wrapped (ground arith)
                  (ground arith))
          | inr inside ↦ elim (Bool-cases (ltb b.writep b.readp)) [
            | inl wraps ↦ rw inside (
                view-splice_wrapped b.octets b.readp b.writep i size hr (ground arith)
                  (room_wrapped b (length i) h (ground arith)))
            | inr straight ↦ rw inside (
                view-splice_straight b.octets b.readp b.writep i size (ground arith) (ground arith))
          ]
        ];
      })

-- Writing fewer octets than there is room for puts them all behind those that the buffer holds.
pub buffer_write-IsWritten :
    (b : Buffer) (input : List ℕ)
    → IsBuffer b
    → length input < gsm0710_buffer_free b
    → IsWritten b input (gsm0710_buffer_write b input).0 (gsm0710_buffer_write b input).1
buffer_write-IsWritten b i wf h = elim (Bool-cases (ltb (buffer_size - b.writep) (length i))) [
  | inl around ↦ write_around b i wf h (ground arith)
  | inr once ↦ write_once b i wf h (ground arith)
]

-- As many octets as there is room for, or more, are lost together with all those that the buffer
-- held: it is empty afterwards.
pub buffer_write_full :
    (b : Buffer) (input : List ℕ)
    → IsBuffer b
    → gsm0710_buffer_free b ≤ length input
    → gsm0710_buffer_length (gsm0710_buffer_write b input).0 ≡ 0
unfolding gsm0710_buffer_write gsm0710_buffer_free gsm0710_buffer_length
buffer_write_full b i wf h =
    let size = wf.size in let hr = wf.readp_inside in let hw = wf.writep_inside in ground arith
