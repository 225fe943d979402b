-- ===== src/Prelude/Decimal.antt =====
-- Decimal text: what `snprintf` prints for `%llu` and `%014llu`, and what `strtoull` reads.
use nebula_x_trader.Prelude.{
  ℕ, zero, suc, ◌+◌, ◌-◌, ◌*◌, ◌/◌, ◌%◌, ◌^◌, ◌<◌, ◌≤◌, ◌≡◌, refl, ap, ◌∙◌, Bool, true, false, ◌&&◌,
  ◌||◌, List, [], ◌∷◌, ◌++◌, ◌==◌, ltb, leb, if◌then◌else◌, arith, length, length-append,
  Bool-cases, inl, inr,
}
use nebula_x_trader.Prelude.Words.{u64_mod}

-- the lowest `n` decimal digits, with leading zeros
pub digits : ℕ → ℕ → List ℕ
digits zero v = []
digits (suc n) v = digits n (v / 10) ++ ((48 + v % 10) ∷ [])

-- A number of up to `suc n` digits without leading zeros.
pub decimal_upto : ℕ → ℕ → List ℕ
decimal_upto zero v = (48 + v % 10) ∷ []
decimal_upto (suc n) v =
    let higher = decimal_upto n (v / 10) in
    if ltb v 10 then (48 + v) ∷ [] else higher ++ ((48 + v % 10) ∷ [])

-- `%llu`: 64-bit numbers have up to 20 digits.
abbrev pub decimal : ℕ → List ℕ
decimal v = decimal_upto 19 v

abbrev pub is_digit : ℕ → Bool
is_digit c = leb 48 c && leb c 57

-- `isspace`
abbrev pub is_space : ℕ → Bool
is_space c = c == 32 || (leb 9 c && leb c 13)

abbrev pub skip_space : List ℕ → List ℕ
skip_space [] = []
skip_space (c ∷ cs) = let rest = skip_space cs in if is_space c then rest else c ∷ cs

-- the number that the digits at the front spell, on top of `acc`
pub read_digits : ℕ → List ℕ → ℕ
read_digits acc [] = acc
read_digits acc (c ∷ cs) =
    let rest = read_digits (acc * 10 + (c - 48)) cs in if is_digit c then rest else acc

-- Out of range, `strtoull` returns the greatest value.
abbrev pub saturate : ℕ → ℕ
saturate n = if ltb n u64_mod then n else u64_mod - 1

abbrev pub negated : ℕ → ℕ
negated n = if ltb n u64_mod then (u64_mod - n) % u64_mod else u64_mod - 1

-- after the white space: a sign, if any, and the digits
abbrev pub read_signed : List ℕ → ℕ
read_signed [] = 0
read_signed (c ∷ cs) =
    if c == b'-'
    then negated (read_digits 0 cs)
    else if c == b'+'
    then saturate (read_digits 0 cs)
    else saturate (read_digits 0 (c ∷ cs))

-- `strtoull(s, nullptr, 10)` on the characters before the terminating zero
pub strtoull : List ℕ → ℕ
strtoull s = read_signed (skip_space s)

abbrev pub AllDigits : List ℕ → Type 0
AllDigits [] = Unit
AllDigits (c ∷ cs) = (is_digit c ≡ true) × AllDigits cs

AllDigits-append :
    (xs : List ℕ) (c : ℕ) → AllDigits xs → is_digit c ≡ true → AllDigits (xs ++ (c ∷ []))
AllDigits-append [] c h d = (d, tt)
AllDigits-append (x ∷ xs) c h d = (h.0, AllDigits-append xs c h.1 d)

pub digits-AllDigits : (n v : ℕ) → AllDigits (digits n v)
unfolding digits
digits-AllDigits zero v = tt
digits-AllDigits (suc n) v =
    AllDigits-append (digits n (v / 10)) (48 + v % 10) (digits-AllDigits n (v / 10)) (ground arith)

pub decimal-AllDigits : (n v : ℕ) → AllDigits (decimal_upto n v)
unfolding decimal_upto
decimal-AllDigits zero v = (ground arith, tt)
decimal-AllDigits (suc n) v = elim (Bool-cases (ltb v 10)) [
  | inl one ↦ rw one (ground arith, tt)
  | inr more ↦ rw more (
      AllDigits-append (decimal_upto n (v / 10)) (48 + v % 10) (decimal-AllDigits n (v / 10))
        (ground arith))
]

pub length-digits : (n v : ℕ) → length (digits n v) ≡ n
unfolding digits
length-digits zero v = refl
length-digits (suc n) v = rw (length-append, length-digits n (v / 10)) (omega arith)

pow10_suc : (n : ℕ) → 10 ^ suc n ≡ 10 ^ n * 10
pow10_suc n = omega arith

-- A number below 10 ^ (k + 1) has at most k + 1 digits.
pub length-decimal : (n k v : ℕ) → v < 10 ^ suc k → length (decimal_upto n v) ≤ suc k
unfolding decimal_upto
length-decimal zero k v small = omega arith
length-decimal (suc n) zero v small = ground arith
length-decimal (suc n) (suc k) v small = elim (Bool-cases (ltb v 10)) [
  | inl one ↦ rw one (omega arith)
  | inr more ↦
      rw (more, length-append)
        (omega (arith, length-decimal n k (v / 10) (omega (arith, pow10_suc (suc k)))))
]

pub length-decimal_pos : (n v : ℕ) → 0 < length (decimal_upto n v)
unfolding decimal_upto
length-decimal_pos zero v = omega arith
length-decimal_pos (suc n) v = elim (Bool-cases (ltb v 10)) [
  | inl one ↦ rw one (omega arith)
  | inr more ↦ rw (more, length-append) (omega arith)
]

-- One more digit at the end.
read_digits-append :
    (acc : ℕ) (xs : List ℕ) (c : ℕ) (ys : List ℕ)
    → AllDigits xs
    → is_digit c ≡ true
    → read_digits acc (xs ++ (c ∷ ys)) ≡ read_digits (read_digits acc xs * 10 + (c - 48)) ys
unfolding read_digits
read_digits-append acc [] c ys h d = rw (d, read_digits)
read_digits-append acc (x ∷ xs) c ys h d =
    rw (h.0, read_digits) (read_digits-append (acc * 10 + (x - 48)) xs c ys h.1 d)

read_digits-digits : (n v : ℕ) → v < 10 ^ n → read_digits 0 (digits n v) ≡ v
unfolding digits read_digits
read_digits-digits zero v small = omega arith
read_digits-digits (suc n) v small =
    read_digits-append 0 (digits n (v / 10)) (48 + v % 10) [] (digits-AllDigits n (v / 10))
      (ground arith)
    ∙ ap (λ (h : ℕ). h * 10 + (48 + v % 10 - 48))
        (read_digits-digits n (v / 10) (omega (arith, pow10_suc n)))
    ∙ omega arith

read_digits-decimal : (n v : ℕ) → v < 10 ^ suc n → read_digits 0 (decimal_upto n v) ≡ v
unfolding decimal_upto read_digits
read_digits-decimal zero v small = ground arith
read_digits-decimal (suc n) v small = elim (Bool-cases (ltb v 10)) [
  | inl one ↦ rw one (ground arith)
  | inr more ↦ rw more (
      read_digits-append 0 (decimal_upto n (v / 10)) (48 + v % 10) [] (decimal-AllDigits n (v / 10))
        (ground arith)
      ∙ ap (λ (h : ℕ). h * 10 + (48 + v % 10 - 48))
          (read_digits-decimal n (v / 10) (omega (arith, pow10_suc (suc n))))
      ∙ omega arith)
]

-- Reading stops at the first character that is no digit.
abbrev pub Stops : List ℕ → Type 0
Stops [] = Unit
Stops (c ∷ cs) = is_digit c ≡ false

read_digits-Stops :
    (acc : ℕ) (xs ys : List ℕ)
    → AllDigits xs
    → Stops ys
    → read_digits acc (xs ++ ys) ≡ read_digits acc xs
unfolding read_digits
read_digits-Stops acc [] [] h s = refl
read_digits-Stops acc [] (y ∷ ys) h s = rw (s, read_digits)
read_digits-Stops acc (x ∷ xs) ys h s =
    rw (h.0, read_digits) (read_digits-Stops (acc * 10 + (x - 48)) xs ys h.1 s)

strtoull-AllDigits :
    (xs ys : List ℕ)
    → 0 < length xs
    → AllDigits xs
    → Stops ys
    → read_digits 0 xs < u64_mod
    → strtoull (xs ++ ys) ≡ read_digits 0 xs
unfolding strtoull
strtoull-AllDigits [] ys some_char h s small = absurd (omega arith)
strtoull-AllDigits (x ∷ xs) ys some_char h s small =
    rw (no_space, no_minus, no_plus, read_digits-Stops 0 (x ∷ xs) ys h s) (ground arith)
  where
    no_space : is_space x ≡ false
    no_space = ground (arith, h.0)

    no_minus : (x == b'-') ≡ false
    no_minus = ground (arith, h.0)

    no_plus : (x == b'+') ≡ false
    no_plus = ground (arith, h.0)

-- A number below 10^(n + 1) printed with leading zeros to that width is read back.
pub strtoull-digits :
    (n v : ℕ)
    → v < 10 ^ suc n
    → v < u64_mod
    → (ys : List ℕ) → Stops ys
    → strtoull (digits (suc n) v ++ ys) ≡ v
strtoull-digits n v small word ys s =
    strtoull-AllDigits (digits (suc n) v) ys (omega (arith, length-digits (suc n) v))
      (digits-AllDigits (suc n) v) s (rw (read_digits-digits (suc n) v small) word)
    ∙ read_digits-digits (suc n) v small

-- A number that fits its digits is read back from its decimal text.
pub strtoull-decimal :
    (n v : ℕ)
    → v < 10 ^ suc n
    → v < u64_mod
    → (ys : List ℕ) → Stops ys
    → strtoull (decimal_upto n v ++ ys) ≡ v
strtoull-decimal n v small word ys s =
    strtoull-AllDigits (decimal_upto n v) ys (length-decimal_pos n v) (decimal-AllDigits n v) s
      (rw (read_digits-decimal n v small) word)
    ∙ read_digits-decimal n v small
