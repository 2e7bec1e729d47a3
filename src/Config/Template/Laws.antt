-- ===== src/Config/Template/Laws.antt =====
-- A template in which a name stands once is filled in as it reads: the doubling of its percent
-- signs and the conversion put in the name's place undo each other.
use chan_extra.Prelude.{
  append-nil, lt→ltb, All-append, Bool-cases, ℕ, suc, ◌+◌, ◌-◌, ◌*◌, ◌≤◌, ◌<◌, ◌≡◌, refl, sym, ◌≢◌,
  Bool, true, false, ◌⊎◌, inl, inr, Option, none, some, List, [], ◌∷◌, ◌++◌, ◌==◌, if◌then◌else◌,
  bind, length, length-append, take, drop-append, All, arith,
}
use chan_extra.Sms.Submit.{is_prefix}
use chan_extra.Config.Template.{
  text_eq, check_loop, str_check_symbol, find_text, replace_loop, str_replace, replaced, print_loop,
  expanded, expand,
}

-- A text with its percent signs doubled.
unfoldable double : List ℕ → List ℕ
double [] = []
double (c ∷ text) = let rest = double text in if c == b'%' then c ∷ c ∷ rest else c ∷ rest

double-append : (a b : List ℕ) → double (a ++ b) ≡ double a ++ double b
unfolding double
double-append [] b = refl
double-append (c ∷ a) b = ground (arith, double-append a b)

double-length : (a : List ℕ) → length (double a) ≤ 2 * length a
unfolding double
double-length [] = ground arith
double-length (c ∷ a) = ground (arith, double-length a)

-- No dollar sign.
abbrev pub NoDollar : List ℕ → Type 0
NoDollar text = All (λ c. c ≢ b'$') text

double-NoDollar : (a : List ℕ) → All (λ c. c ≢ b'$') a → All (λ c. c ≢ b'$') (double a)
unfolding double
double-NoDollar [] h = h
double-NoDollar (c ∷ a) h = elim (Bool-cases (c == b'%')) [
  | inl e ↦ rw e (h.0, (h.0, double-NoDollar a h.1))
  | inr e ↦ rw e (h.0, double-NoDollar a h.1)
]

check_loop_lem :
    (len n : ℕ) (src : List ℕ) → n + length (double src) < len → check_loop len n src ≡ double src
unfolding check_loop double
check_loop_lem len n [] h = refl
check_loop_lem len n (c ∷ src) h =
    ground (arith, check_loop_lem len (n + 1) src, check_loop_lem len (n + 2) src)

is_prefix_self : (p b : List ℕ) → is_prefix p (p ++ b) ≡ true
unfolding is_prefix
is_prefix_self [] b = refl
is_prefix_self (c ∷ p) b = ground (arith, is_prefix_self p b)

find_text-append :
    (p a b : List ℕ)
    → All (λ c. c ≢ b'$') a
    → find_text (b'$' ∷ p) (a ++ ((b'$' ∷ p) ++ b)) ≡ some (a, b)
unfolding find_text is_prefix
find_text-append p [] b h = ground (arith, is_prefix_self p b, drop-append p b)
find_text-append p (c ∷ a) b h = ground (arith, find_text-append p a b h.1, h.0)

find_text-none : (p a : List ℕ) → All (λ c. c ≢ b'$') a → find_text (b'$' ∷ p) a ≡ none
unfolding find_text is_prefix
find_text-none p [] h = ground arith
find_text-none p (c ∷ a) h = ground (arith, find_text-none p a h.1, h.0)

bind-some : {A : Type 0} (o : Option A) → bind o (λ a. some a) ≡ o
bind-some none = refl
bind-some (some a) = refl

bind_cons :
    (c : ℕ) (a : List ℕ) (o : Option (List ℕ))
    → bind (bind o (λ text. some (a ++ text))) (λ text. some (c ∷ text))
      ≡ bind o (λ text. some (c ∷ (a ++ text)))
bind_cons c a none = refl
bind_cons c a (some text) = refl

print_loop-double :
    (used : Bool) (arg a rest : List ℕ)
    → print_loop false used arg (double a ++ rest)
      ≡ bind (print_loop false used arg rest) (λ text. some (a ++ text))
unfolding print_loop double
print_loop-double used arg [] rest = sym (bind-some (print_loop false used arg rest))
print_loop-double used arg (c ∷ a) rest =
    ground
      (arith, print_loop-double used arg a rest, bind_cons c a (print_loop false used arg rest))

-- A conversion of a kind that takes a text.
abbrev pub IsConversion : ℕ → Type 0
IsConversion k = (k ≡ b's') ⊎ ((k ≡ b'd') ⊎ (k ≡ b'c'))

print_loop-plain : (used : Bool) (arg a : List ℕ) → print_loop false used arg (double a) ≡ some a
unfolding print_loop
print_loop-plain used arg a =
    rw (append-nil (double a), append-nil a) at (print_loop-double used arg a [])

print_loop-conversion :
    (k : ℕ) (arg a b : List ℕ)
    → IsConversion k
    → print_loop false false arg (double a ++ ((b'%' ∷ k ∷ []) ++ double b))
      ≡ some (a ++ (arg ++ b))
unfolding print_loop
print_loop-conversion k arg a b h =
    rw (print_loop-double false arg a (b'%' ∷ k ∷ double b))
      (ground (arith, print_loop-plain true arg b))

str_check_symbol_lem :
    (src : List ℕ) → 2 * length src < 1024 → str_check_symbol src 1024 ≡ some (double src)
unfolding str_check_symbol
str_check_symbol_lem src h = ground (arith, check_loop_lem 1024 0 src, double-length src)

conversion-NoDollar :
    (a b : List ℕ) (k : ℕ)
    → All (λ c. c ≢ b'$') a
    → All (λ c. c ≢ b'$') b
    → k ≢ b'$'
    → All (λ c. c ≢ b'$') (a ++ ((b'%' ∷ k ∷ []) ++ b))
conversion-NoDollar a b k h h' hk =
    All-append (λ c. c ≢ b'$') a ((b'%' ∷ k ∷ []) ++ b) h (ground arith, (hk, h'))

replace_loop_lem :
    (f len : ℕ) (p a b : List ℕ) (k : ℕ)
    → All (λ c. c ≢ b'$') a
    → All (λ c. c ≢ b'$') (a ++ ((b'%' ∷ k ∷ []) ++ b))
    → length (a ++ ((b'%' ∷ k ∷ []) ++ b)) < len
    → replace_loop (suc (suc f)) len (a ++ ((b'$' ∷ p) ++ b)) (b'$' ∷ p) (b'%' ∷ k ∷ [])
      ≡ some (a ++ ((b'%' ∷ k ∷ []) ++ b))
unfolding replace_loop
replace_loop_lem f len p a b k h h' l =
    rw (replace_loop, find_text-append p a b h, lt→ltb (length (a ++ ((b'%' ∷ k ∷ []) ++ b))) len l)
      (rw (replace_loop, find_text-none p (a ++ ((b'%' ∷ k ∷ []) ++ b)) h') refl)

replaced_length :
    (p a b : List ℕ) (k : ℕ)
    → length (a ++ ((b'%' ∷ k ∷ []) ++ b)) ≤ length (a ++ ((b'$' ∷ p) ++ b)) + 1
replaced_length p a b k = ground (
  arith,
  length-append a ((b'%' ∷ k ∷ []) ++ b),
  length-append a ((b'$' ∷ p) ++ b),
  length-append p b,
)

rounds :
    (p a b : List ℕ) → length (a ++ ((b'$' ∷ p) ++ b)) + 1 ≡ suc (suc (length a + length (p ++ b)))
rounds p a b = ground (arith, length-append a ((b'$' ∷ p) ++ b))

str_replace_lem :
    (p a b : List ℕ) (k : ℕ)
    → All (λ c. c ≢ b'$') a
    → All (λ c. c ≢ b'$') b
    → k ≢ b'$'
    → length (a ++ ((b'$' ∷ p) ++ b)) < 1023
    → str_replace (a ++ ((b'$' ∷ p) ++ b)) 1024 (b'$' ∷ p) (b'%' ∷ k ∷ [])
      ≡ replaced (a ++ ((b'%' ∷ k ∷ []) ++ b))
unfolding str_replace text_eq
str_replace_lem p a b k h h' hk l =
    let small : length (a ++ ((b'%' ∷ k ∷ []) ++ b)) < 1024 =
      ground (arith, replaced_length p a b k) in
    let run =
      replace_loop_lem (length a + length (p ++ b)) 1024 p a b k h
        (conversion-NoDollar a b k h h' hk) small in
    rw (lt→ltb (length (a ++ ((b'$' ∷ p) ++ b))) 1024 (ground arith), rounds p a b, run) refl

-- No percent sign.
abbrev pub NoPercent : List ℕ → Type 0
NoPercent text = All (λ c. c ≢ b'%') text

double_plain : (p : List ℕ) → NoPercent p → double p ≡ p
unfolding double
double_plain [] h = refl
double_plain (c ∷ p) h = ground (arith, double_plain p h.1, h.0)

double_template :
    (p a b : List ℕ)
    → NoPercent p
    → double (a ++ ((b'$' ∷ p) ++ b)) ≡ double a ++ ((b'$' ∷ p) ++ double b)
double_template p a b h =
    rw (double-append a ((b'$' ∷ p) ++ b), double-append (b'$' ∷ p) b)
      (rw (double_plain (b'$' ∷ p) (ground arith, h)) refl)

-- A template in which a name that starts with a dollar sign stands once, and no other dollar sign,
-- is filled in as it reads, cut to the caller's buffer. The name has no percent sign, and the
-- template, which may double, is shorter than 511 octets.
pub expand_lem :
    (p a b arg : List ℕ) (k len : ℕ)
    → NoPercent p
    → NoDollar a
    → NoDollar b
    → IsConversion k
    → length (a ++ ((b'$' ∷ p) ++ b)) < 511
    → expand (a ++ ((b'$' ∷ p) ++ b)) (b'$' ∷ p) (b'%' ∷ k ∷ []) arg len
      ≡ expanded (take (len - 1) (a ++ (arg ++ b)))
unfolding expand
expand_lem p a b arg k len hp h h' hk l =
    let doubled : length (double (a ++ ((b'$' ∷ p) ++ b))) < 1023 =
      ground (arith, double-length (a ++ ((b'$' ∷ p) ++ b))) in
    let bound : length (double a ++ ((b'$' ∷ p) ++ double b)) < 1023 =
      rw (double_template p a b hp) at doubled in
    let filled =
      str_replace_lem p (double a) (double b) k (double-NoDollar a h) (double-NoDollar b h')
        (ground arith) bound in
    rw
      (
        expand,
        str_check_symbol_lem (a ++ ((b'$' ∷ p) ++ b)) (ground arith),
        double_template p a b hp,
        filled,
        print_loop-conversion k arg a b hk,
      )
      refl
