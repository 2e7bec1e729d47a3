-- ===== src/Sms/Hex/Laws.antt =====
-- Bytes to text and back.
use chan_extra.Prelude.{
  ℕ, zero, suc, ◌+◌, ◌*◌, ◌≤◌, ◌<◌, ◌≡◌, refl, sym, ap, ◌∙◌, ap₂, inl, inr, true, Bool-cases, none,
  some, List, [], ◌∷◌, ◌++◌, append_assoc, arith, ltb, lt→ltb, ◌==◌, ==→eq, Option-cases, set, take,
  drop, length, replicate, ◌-◌, length-append, length-set, length-drop, set-append, take-set_le,
  take-append_eq, u8, IsByte, All, all_below, all_below_sound,
}
use chan_extra.Sms.Hex.{gsm_hex2int, gsm_bytes2string, string2byte_loop, gsm_string2byte}

hex_table : all_below 256 (λ b. gsm_hex2int (gsm_bytes2string (b ∷ [])) 2 == b) ≡ true
unfolding all_below gsm_hex2int gsm_bytes2string
hex_table = refl

-- The two digits of a byte read back as the byte, whatever follows them.
pub hex2int-bytes2string :
    (b : ℕ) (rest : List ℕ) → IsByte b → gsm_hex2int (gsm_bytes2string (b ∷ []) ++ rest) 2 ≡ b
unfolding gsm_hex2int gsm_bytes2string
hex2int-bytes2string b rest h = ==→eq _ b (all_below_sound 256 _ b hex_table h)

-- What the conversion writes: a byte for each of the next `n` pairs of digits.
unfoldable pub bytes_of : List ℕ → ℕ → List ℕ
bytes_of text zero = []
bytes_of text (suc n) = u8 (gsm_hex2int text 2) ∷ bytes_of (drop 2 text) n

u8-IsByte : (b : ℕ) → IsByte b → u8 b ≡ b
u8-IsByte b h = omega arith

pub length-bytes_of : (text : List ℕ) (n : ℕ) → length (bytes_of text n) ≡ n
unfolding bytes_of
length-bytes_of text zero = refl
length-bytes_of text (suc n) = ap suc (length-bytes_of (drop 2 text) n)

pub bytes_of-bytes2string :
    (bs rest : List ℕ) → All IsByte bs → bytes_of (gsm_bytes2string bs ++ rest) (length bs) ≡ bs
unfolding bytes_of gsm_bytes2string
bytes_of-bytes2string [] rest h = refl
bytes_of-bytes2string (b ∷ bs) rest h =
    ap₂ ◌∷◌ (ap u8 (hex2int-bytes2string b (gsm_bytes2string bs ++ rest) h.0) ∙ u8-IsByte b h.0)
      (bytes_of-bytes2string bs rest h.1)

bytes_of-nil : (n : ℕ) → bytes_of [] n ≡ replicate n 0
unfolding bytes_of gsm_hex2int
bytes_of-nil zero = refl
bytes_of-nil (suc n) = ap (λ l. 0 ∷ l) (bytes_of-nil n)

-- Past the end of the text, the bytes are zero.
pub bytes_of_padded :
    (bs : List ℕ) (n : ℕ)
    → All IsByte bs
    → length bs ≤ n
    → bytes_of (gsm_bytes2string bs) n ≡ bs ++ replicate (n - length bs) 0
unfolding bytes_of gsm_bytes2string
bytes_of_padded [] n h room = bytes_of-nil n ∙ ap (λ k. replicate k 0) (omega arith)
bytes_of_padded (b ∷ bs) zero h room = absurd (omega arith)
bytes_of_padded (b ∷ bs) (suc n) h room =
    ap₂ ◌∷◌ (ap u8 (hex2int-bytes2string b (gsm_bytes2string bs) h.0) ∙ u8-IsByte b h.0)
      (bytes_of_padded bs n h.1 (omega arith) ∙ ap (λ k. bs ++ replicate k 0) (omega arith))

string2byte_loop_lem :
    (text : List ℕ) (n : ℕ) (before after : List ℕ)
    → n ≤ length after
    → string2byte_loop (before ++ after) text n (length before)
      ≡ some (before ++ (bytes_of text n ++ drop n after))
unfolding string2byte_loop bytes_of
string2byte_loop_lem text zero before after h = refl
string2byte_loop_lem text (suc n) before [] h = absurd (omega arith)
string2byte_loop_lem text (suc n) before (x ∷ after) h =
    let v = u8 (gsm_hex2int text 2) in
    let inside : ltb (length before) (length (before ++ (x ∷ after))) ≡ true =
      lt→ltb _ _ (omega (arith, length-append before (x ∷ after))) in
    let here : length before + 1 ≡ length (before ++ (v ∷ [])) =
      omega (arith, length-append before (v ∷ [])) in
    rw (inside, string2byte_loop)
      (rw (set-append before x after v) (
        ap (λ l. string2byte_loop l (drop 2 text) n (length before + 1))
          (sym (append_assoc before (v ∷ []) after))
        ∙ rw here (string2byte_loop_lem (drop 2 text) n (before ++ (v ∷ [])) after (omega arith))
        ∙ ap some (append_assoc before (v ∷ []) (bytes_of (drop 2 text) n ++ drop n after))))

string2byte_loop-length :
    (text : List ℕ) (n i : ℕ) (res out : List ℕ)
    → string2byte_loop res text n i ≡ some out
    → length out ≡ length res
unfolding string2byte_loop
string2byte_loop-length text zero i res out e = ground arith
string2byte_loop-length text (suc n) i res out e =
    let v = u8 (gsm_hex2int text 2) in
    elim (Bool-cases (ltb i (length res))) [
      | inl inside ↦
          string2byte_loop-length (drop 2 text) n (i + 1) (set res i v) out
            (rw (inside, string2byte_loop) at e)
          ∙ length-set res i v
      | inr outside ↦ cc (rw (outside, string2byte_loop) at e)
    ]

-- In an array of more than twice as many bytes as it is to receive, the conversion stays inside the
-- array, which keeps its size, and puts the bytes of the text at its front.
pub gsm_string2byte_lem :
    (res text : List ℕ) (len : ℕ)
    → 2 * len < length res
    → (out : List ℕ) × (gsm_string2byte res text len ≡ some out)
      × (take len out ≡ bytes_of text len)
      × (length out ≡ length res)
unfolding gsm_string2byte
gsm_string2byte_lem res text len h =
    let loop : string2byte_loop res text len 0 ≡ some (bytes_of text len ++ drop len res) =
      string2byte_loop_lem text len [] res (omega arith) in
    let full : length (bytes_of text len ++ drop len res) ≡ length res = omega (
      arith,
      length-append (bytes_of text len) (drop len res),
      length-bytes_of text len,
      length-drop len res,
    ) in
    let done = bytes_of text len ++ drop len res in
    (
      set done (len * 2) 0,
      rw (loop, gsm_string2byte) (rw (lt→ltb (len * 2) (length done) (omega arith))),
      take-set_le len done (len * 2) 0 (omega arith)
          ∙ take-append_eq len (bytes_of text len) (drop len res) (length-bytes_of text len),
      length-set done (len * 2) 0 ∙ full,
    )

pub gsm_string2byte_fault :
    (res text : List ℕ) (len : ℕ) → length res ≤ 2 * len → gsm_string2byte res text len ≡ none
unfolding gsm_string2byte
gsm_string2byte_fault res text len h = elim (Option-cases (string2byte_loop res text len 0)) [
  | inl e ↦ rw (e, gsm_string2byte)
  | inr (out, e) ↦
      rw (e, gsm_string2byte) (ground (arith, string2byte_loop-length text len 0 res out e))
]

pub length-bytes2string : (bs : List ℕ) → length (gsm_bytes2string bs) ≡ 2 * length bs
unfolding gsm_bytes2string
length-bytes2string [] = refl
length-bytes2string (b ∷ bs) = omega (arith, length-bytes2string bs)
