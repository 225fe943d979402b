-- ===== src/OrderCodec/Ouch/Frames.antt =====
-- The fields of OUCH frames: their lengths, and what is read back of each.
use nebula_x_trader.Prelude.{
  ℕ, zero, suc, ◌-◌, ◌*◌, ◌/◌, ◌%◌, ◌^◌, ◌<◌, ◌≤◌, ◌≡◌, refl, ap, sym, ◌∙◌, true, List, [], ◌∷◌,
  ltb, arith, length, take, length-append,
}
use mathlib.Core.List.{append-nil}
use nebula_x_trader.Prelude.Words.{to_u64}
use nebula_x_trader.Prelude.Int.{ℤ, pos}
use nebula_x_trader.Prelude.Int.Ring.{pos_mul}
use nebula_x_trader.Prelude.Bytes.{to_be, from_be, from_be_on}
use nebula_x_trader.Prelude.Decimal.{
  digits, decimal, strtoull, length-digits, length-decimal, Stops, strtoull-digits,
  strtoull-decimal,
}
use nebula_x_trader.OrderCodec.Ouch.{spaces, token_for, book_for, ouch_price}

length-take : (n : ℕ) (xs : List ℕ) → n ≤ length xs → length (take n xs) ≡ n
length-take zero xs h = refl
length-take (suc n) [] h = absurd (omega arith)
length-take (suc n) (x ∷ xs) h = ap suc (length-take n xs (omega arith))

take_all : (n : ℕ) (xs : List ℕ) → length xs ≤ n → take n xs ≡ xs
take_all zero [] h = refl
take_all zero (x ∷ xs) h = absurd (omega arith)
take_all (suc n) [] h = refl
take_all (suc n) (x ∷ xs) h = ap (λ t. x ∷ t) (take_all n xs (omega arith))

length-take_upto : (n : ℕ) (xs : List ℕ) → length (take n xs) ≤ n
length-take_upto zero xs = omega arith
length-take_upto (suc n) [] = omega arith
length-take_upto (suc n) (x ∷ xs) = omega (arith, length-take_upto n xs)

length-spaces : (n : ℕ) → length (spaces n) ≡ n
unfolding spaces
length-spaces zero = refl
length-spaces (suc n) = ap suc (length-spaces n)

spaces-Stops : (n : ℕ) → Stops (spaces n)
unfolding spaces
spaces-Stops zero = tt
spaces-Stops (suc n) = refl

pub length-book_for : (s : ℕ) → length (book_for s) ≡ 10
unfolding book_for
length-book_for s =
    rw (length-append, length-spaces (10 - length (take 10 (decimal s))))
      (omega (arith, length-take_upto 10 (decimal s)))

pub strtoull-book_for : (s : ℕ) → s < 10 ^ 10 → strtoull (book_for s) ≡ s
unfolding book_for
strtoull-book_for s small = rw (take_all 10 (decimal s) (length-decimal 19 9 s small)) (
    strtoull-decimal 19 s (omega arith) (omega arith) (spaces (10 - length (decimal s)))
      (spaces-Stops (10 - length (decimal s))))

pub length-token_for : (id : ℕ) → id < 10 ^ 14 → length (token_for id) ≡ 14
unfolding token_for
length-token_for id small = rw (small_token id small, length-digits 14 id)
  where
    small_token : (id : ℕ) → id < 10 ^ 14 → ltb id (10 ^ 14) ≡ true
    small_token id small = ground arith

pub strtoull-token_for : (id : ℕ) → id < 10 ^ 14 → strtoull (token_for id) ≡ id
unfolding token_for
strtoull-token_for id small = rw (small_token id small) (
    ap strtoull (sym (append-nil (digits 14 id))) ∙ strtoull-digits 13 id small (omega arith) [] tt)
  where
    small_token : (id : ℕ) → id < 10 ^ 14 → ltb id (10 ^ 14) ≡ true
    small_token id small = ground arith

-- Four bytes keep the lowest 32 bits.
pub read32 : (v : ℕ) → from_be (to_be 4 v) ≡ v % 2 ^ 32
unfolding to_be from_be_on
read32 v = omega arith

-- cents that fit OUCH's 32 bits
pub read_price : (c : ℕ) → c * 100 < 2 ^ 32 → from_be (to_be 4 (ouch_price (pos c))) / 100 ≡ c
read_price c small =
    ap (λ (z : ℤ). from_be (to_be 4 (to_u64 z)) / 100) (pos_mul c 100)
    ∙ ap (λ (v : ℕ). v / 100) (read32 (to_u64 (pos (c * 100))))
    ∙ omega arith
