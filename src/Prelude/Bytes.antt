-- ===== src/Prelude/Bytes.antt =====
-- Big-endian fields of a frame, which is a list of bytes.
use nebula_x_trader.Prelude.{
  ℕ, zero, suc, ◌+◌, ◌*◌, ◌/◌, ◌%◌, ◌^◌, ◌<◌, ◌≡◌, refl, ap, ◌∙◌, List, [], ◌∷◌, ◌++◌, arith, take,
  length, drop, get_or,
}

-- the lowest `n` bytes of a value, the highest first
unfoldable pub to_be : ℕ → ℕ → List ℕ
to_be zero v = []
to_be (suc n) v = to_be n (v / 256) ++ (v % 256 ∷ [])

-- the value of bytes, on top of those read before
unfoldable pub from_be_on : ℕ → List ℕ → ℕ
from_be_on acc [] = acc
from_be_on acc (b ∷ bs) = from_be_on (acc * 256 + b) bs

abbrev pub from_be : List ℕ → ℕ
from_be bs = from_be_on 0 bs

-- `len` bytes from offset `off` on
abbrev pub slice : ℕ → ℕ → List ℕ → List ℕ
slice off len buf = take len (drop off buf)

-- the fields of a frame, one after the other
abbrev pub flat : List (List ℕ) → List ℕ
flat [] = []
flat (f ∷ fs) = f ++ flat fs

abbrev pub byte : ℕ → List ℕ → ℕ
byte i buf = get_or buf i 0

from_be_on-append :
    (acc : ℕ) (xs : List ℕ) (b : ℕ) → from_be_on acc (xs ++ (b ∷ [])) ≡ from_be_on acc xs * 256 + b
unfolding from_be_on
from_be_on-append acc [] b = refl
from_be_on-append acc (x ∷ xs) b = from_be_on-append (acc * 256 + x) xs b

pow_suc : (n : ℕ) → 256 ^ suc n ≡ 256 ^ n * 256
pow_suc n = omega arith

-- Bytes read back are the value, cut to their number.
pub from_be-to_be : (n v : ℕ) → v < 256 ^ n → from_be (to_be n v) ≡ v
unfolding to_be from_be_on
from_be-to_be zero v small = omega arith
from_be-to_be (suc n) v small =
    from_be_on-append 0 (to_be n (v / 256)) (v % 256)
    ∙ ap (λ (h : ℕ). h * 256 + v % 256) (from_be-to_be n (v / 256) (omega (arith, pow_suc n)))
    ∙ omega arith

-- a list of `n` written out cell by cell
abbrev pub cells : ℕ → List ℕ → List ℕ
cells zero xs = []
cells (suc n) xs = get_or xs 0 0 ∷ cells n (drop 1 xs)

pub cells_lem : (n : ℕ) (xs : List ℕ) → length xs ≡ n → cells n xs ≡ xs
cells_lem zero [] h = refl
cells_lem zero (x ∷ xs) h = absurd (omega arith)
cells_lem (suc n) [] h = absurd (omega arith)
cells_lem (suc n) (x ∷ xs) h = ap (λ t. x ∷ t) (cells_lem n xs (omega arith))
