-- ===== src/Card/Serial/Frames.antt =====
-- Frames one after the other in the transmitter's buffer, and the pieces that the loops make of
-- what is to be sent.
use chan_extra.Prelude.{
  ℕ, zero, suc, ◌+◌, ◌*◌, ◌/◌, ◌≤◌, ◌<◌, ◌≡◌, refl, sym, ap, ◌∙◌, true, false, Option, none, some,
  List, [], ◌∷◌, ◌++◌, append_assoc, append-nil, map, arith, inl, inr, Bool-cases, Option-cases,
  length, take, drop, ltb, leb, ◌==◌, if◌then◌else◌, bind, All, min, length-append, length-drop,
  take_all, drop_all,
}
use chan_extra.Card.Serial.{hdlc_loop}
use chan_extra.Mux.Send.{Mux, ser_buf_size, frame_octets, header, send, gsm0710_write_frame}

-- The octets of lists, one after the other.
abbrev pub join : List (List ℕ) → List ℕ
join [] = []
join (c ∷ cs) = c ++ join cs

-- UIH frames of a channel with these data.
abbrev pub frames : ℕ → List (List ℕ) → List ℕ
frames channel cs = join (map (frame_octets channel 239) cs)

-- Pieces of what is to be sent, each of which fits a frame.
pub record IsSplit (input : List ℕ) (cs : List (List ℕ)) : Type 0 where
  pub joined : join cs ≡ input
  pub sized : All (λ c. (0 < length c) × (length c ≤ 127)) cs

-- The pieces that both loops make.
abbrev pub pieces : ℕ → List ℕ → List (List ℕ)
pieces zero rest = []
pieces (suc f) [] = []
pieces (suc f) (x ∷ xs) = take 127 (x ∷ xs) ∷ pieces f (drop 127 (x ∷ xs))

pub take-drop : (n : ℕ) (xs : List ℕ) → take n xs ++ drop n xs ≡ xs
take-drop zero xs = refl
take-drop (suc n) [] = refl
take-drop (suc n) (x ∷ xs) = ap (λ l. x ∷ l) (take-drop n xs)

length-take_min : (n : ℕ) (xs : List ℕ) → length (take n xs) ≤ n
length-take_min zero xs = omega arith
length-take_min (suc n) [] = omega arith
length-take_min (suc n) (x ∷ xs) = omega (arith, length-take_min n xs)

pub pieces-IsSplit : (f : ℕ) (input : List ℕ) → length input ≤ f → IsSplit input (pieces f input)
pieces-IsSplit zero [] h = record { joined = refl; sized = tt }
pieces-IsSplit zero (x ∷ xs) h = absurd (omega arith)
pieces-IsSplit (suc f) [] h = record { joined = refl; sized = tt }
pieces-IsSplit (suc f) (x ∷ xs) h =
    let ih = pieces-IsSplit f (drop 127 (x ∷ xs)) (omega (arith, length-drop 127 (x ∷ xs))) in
    record {
      joined = ap (λ l. take 127 (x ∷ xs) ++ l) ih.joined ∙ take-drop 127 (x ∷ xs);
      sized = ((omega arith, length-take_min 127 (x ∷ xs)), ih.sized);
    }

-- Sending twice is sending both at once.
pub send-send : (m : Mux) (a b : List ℕ) → bind (send m a) (λ m'. send m' b) ≡ send m (a ++ b)
unfolding send
send-send m a b = elim (Bool-cases (leb (length m.tx + length a) ser_buf_size)) [
  | inl fits ↦
      rw (fits, length-append m.tx a, length-append a b, append_assoc m.tx a b)
        (ap (λ n. if leb n ser_buf_size then some (record m { tx = m.tx ++ (a ++ b) }) else none)
          (omega arith))
  | inr over ↦
      let over' : leb (length m.tx + length (a ++ b)) ser_buf_size ≡ false =
        ground (arith, length-append a b) in
      rw (over, over') refl
]

pub send_nil : (m : Mux) → length m.tx ≤ ser_buf_size → send m [] ≡ some m
unfolding send
send_nil m h =
    let fits : leb (length m.tx + 0) ser_buf_size ≡ true = ground arith in
    rw (fits, append-nil m.tx) refl

pub send-fits : (m m' : Mux) (a : List ℕ) → send m a ≡ some m' → length m'.tx ≤ ser_buf_size
unfolding send
send-fits m m' a h = ground (arith, length-append m.tx a)

-- A loop that sends the first piece as a frame and goes on with the rest sends all as frames.
pub write_frame-send :
    (m : Mux) (channel : ℕ) (c : List ℕ) (k : Mux → Option Mux) (rest : List ℕ)
    → length m.tx ≤ ser_buf_size
    → ((m' : Mux) → length m'.tx ≤ ser_buf_size → k m' ≡ send m' rest)
    → bind (gsm0710_write_frame m channel c 239) (λ sent. k sent.0)
      ≡ send m (frame_octets channel 239 c ++ rest)
unfolding gsm0710_write_frame
write_frame-send m channel c k rest fits go =
    elim (Option-cases (send m (frame_octets channel 239 c))) [
      | inl full ↦
          let e = send-send m (frame_octets channel 239 c) rest in
          let e' = rw full at e in rw full e'
      | inr (m', sent) ↦
          let e = send-send m (frame_octets channel 239 c) rest in
          let e' = rw sent at e in
          rw sent (go m' (send-fits m m' (frame_octets channel 239 c) sent) ∙ e')
    ]

pieces_nil : (f : ℕ) → pieces f [] ≡ []
pieces_nil zero = refl
pieces_nil (suc f) = refl

pieces_short :
    (f : ℕ) (x : ℕ) (xs : List ℕ) → length (x ∷ xs) ≤ 127 → pieces (suc f) (x ∷ xs) ≡ (x ∷ xs) ∷ []
pieces_short f x xs h =
    rw (take_all 127 (x ∷ xs) h, drop_all 127 (x ∷ xs) h) (ap (λ l. (x ∷ xs) ∷ l) (pieces_nil f))

-- The loops of the terminal and of the signalling channel differ in the test that makes a piece.
abbrev pub step : ℕ → (Mux → List ℕ → Option Mux) → Mux → List ℕ → Option Mux
step channel go m rest =
    bind (gsm0710_write_frame m channel (take 127 rest) 239) (λ sent. go sent.0 (drop 127 rest))

pub step-frames :
    (channel f : ℕ) (go : Mux → List ℕ → Option Mux) (m : Mux) (x : ℕ) (xs : List ℕ)
    → ((m' : Mux)
        → length m'.tx ≤ ser_buf_size
        → go m' (drop 127 (x ∷ xs)) ≡ send m' (frames channel (pieces f (drop 127 (x ∷ xs)))))
    → length m.tx ≤ ser_buf_size
    → step channel go m (x ∷ xs) ≡ send m (frames channel (pieces (suc f) (x ∷ xs)))
step-frames channel f go m x xs ih fits =
    write_frame-send m channel (take 127 (x ∷ xs)) (λ m'. go m' (drop 127 (x ∷ xs))) _ fits ih

pub last-frames :
    (channel f : ℕ) (m : Mux) (x : ℕ) (xs : List ℕ)
    → length (x ∷ xs) ≤ 127
    → length m.tx ≤ ser_buf_size
    → bind (gsm0710_write_frame m channel (x ∷ xs) 239) (λ sent. some sent.0)
      ≡ send m (frames channel (pieces (suc f) (x ∷ xs)))
last-frames channel f m x xs h fits =
    write_frame-send m channel (x ∷ xs) (λ m'. some m') [] fits
      (λ m' fits'. sym (send_nil m' fits'))
    ∙ sym (ap (λ cs. send m (frames channel cs)) (pieces_short f x xs h))

-- What the signalling channel is given goes out as frames of channel 1, which hold all of it in
-- order, 127 octets at most in each, when the buffer has the room for them; a write past its end is
-- none.
pub hdlc_loop-frames :
    (f : ℕ) (m : Mux) (buf : List ℕ)
    → length buf ≤ f
    → length m.tx ≤ ser_buf_size
    → hdlc_loop f m buf ≡ send m (frames 1 (pieces f buf))
unfolding hdlc_loop
hdlc_loop-frames zero m [] h fits = sym (send_nil m fits)
hdlc_loop-frames zero m (x ∷ xs) h fits = absurd (omega arith)
hdlc_loop-frames (suc f) m [] h fits = sym (send_nil m fits)
hdlc_loop-frames (suc f) m (x ∷ xs) h fits =
    let some_left : (suc (length xs) == 0) ≡ false = ground arith in
    elim (Bool-cases (ltb (suc (length xs)) 127)) [
      | inl short ↦ rw (hdlc_loop, some_left, short) (last-frames 1 f m x xs (ground arith) fits)
      | inr long ↦
          rw (hdlc_loop, some_left, long)
            (step-frames 1 f (hdlc_loop f) m x xs
              (λ m' fits'.
                hdlc_loop-frames f m' (drop 127 (x ∷ xs)) (omega (arith, length-drop 127 (x ∷ xs)))
                  fits')
              fits)
    ]

length-frame_octets :
    (channel : ℕ) (c : List ℕ) → length c ≤ 127 → length (frame_octets channel 239 c) ≡ length c + 6
unfolding frame_octets header
length-frame_octets channel c h =
    let count : min 512 (length c) ≡ length c = omega arith in
    let short : ltb 127 (length c) ≡ false = ground arith in
    rw (frame_octets, count, header, short, take_all (length c) c (omega arith))
      (omega (arith, length-append {0} c))

-- Each frame of 127 octets of data at most has six octets more.
pub length-frames :
    (channel : ℕ) (cs : List (List ℕ))
    → All (λ c. (0 < length c) × (length c ≤ 127)) cs
    → length (frames channel cs) ≡ length (join cs) + 6 * length cs
length-frames channel [] h = refl
length-frames channel (c ∷ cs) h =
    rw
      (
        length-append (frame_octets channel 239 c) (frames channel cs),
        length-append c (join cs),
        length-frame_octets channel c h.0.1,
        length-frames channel cs h.1,
      )
      (omega arith)

pub length-pieces :
    (f : ℕ) (input : List ℕ)
    → length input ≤ f
    → length (pieces f input) ≡ (length input + 126) / 127
length-pieces zero [] h = refl
length-pieces zero (x ∷ xs) h = absurd (omega arith)
length-pieces (suc f) [] h = refl
length-pieces (suc f) (x ∷ xs) h =
    let l = length-drop 127 (x ∷ xs) in
    let ih = length-pieces f (drop 127 (x ∷ xs)) (omega arith) in ap suc ih ∙ rw l (omega arith)
