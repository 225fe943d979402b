-- ===== src/ByteRing/Cells.antt =====
-- Writes to the cells of a ring of bytes, and what they leave of its windows.
use native.Mathlib.Nat.{mod-add-mod, mod-eq_of_lt}
use mathlib.Core.Path.{ap₂}
use nebula_x_trader.Prelude.{
  ℕ, zero, suc, ◌+◌, ◌%◌, ◌<◌, ◌≤◌, ◌≡◌, ◌≢◌, refl, sym, ap, ◌∙◌, List, [], ◌∷◌, ◌++◌, arith,
  length, get_or,
}
use nebula_x_trader.Prelude.Sum.{update}
use nebula_x_trader.Prelude.Window.{window, mod-ne}
use nebula_x_trader.ByteRing.{write_at}

-- the bytes, one after the other from an index on, which goes round at the capacity
unfoldable pub ring_write : ℕ → ℕ → List ℕ → (ℕ → ℕ) → ℕ → ℕ
ring_write c s [] buf = buf
ring_write c s (b ∷ bs) buf = ring_write c (s + 1) bs (update buf (s % c) b)

pub ring_write-append :
    (c s : ℕ) (xs ys : List ℕ) (buf : ℕ → ℕ)
    → ring_write c s (xs ++ ys) buf ≡ ring_write c (s + length xs) ys (ring_write c s xs buf)
unfolding ring_write
ring_write-append c s [] ys buf = ap (λ (k : ℕ). ring_write c k ys buf) (omega arith)
ring_write-append c s (x ∷ xs) ys buf =
    ring_write-append c (s + 1) xs ys (update buf (s % c) x)
    ∙ ap (λ (k : ℕ). ring_write c k ys (ring_write c (s + 1) xs (update buf (s % c) x)))
        (omega arith)

-- `memcpy` to one piece of the ring
pub write_at-ring_write :
    (c s i : ℕ) (bs : List ℕ) (buf : ℕ → ℕ)
    → (0 < length bs → i ≡ s % c)
    → i + length bs ≤ c
    → write_at i bs buf ≡ ring_write c s bs buf
unfolding write_at ring_write
write_at-ring_write c s i [] buf at fits = refl
write_at-ring_write c s i (b ∷ []) buf at fits = ap (λ (k : ℕ). update buf k b) (at (omega arith))
write_at-ring_write c s i (b ∷ b' ∷ bs) buf at fits =
    let step : suc i ≡ s % c + 1 = omega (arith, at (omega arith)) in
    let next : suc i ≡ (s + 1) % c = step ∙ sym (mod-eq_of_lt (omega arith)) ∙ mod-add-mod s c 1 in
    write_at-ring_write c (s + 1) (suc i) (b' ∷ bs) (update buf i b) (λ h. next) (omega arith)
    ∙ ap (λ (k : ℕ). ring_write c (s + 1) (b' ∷ bs) (update buf k b)) (at (omega arith))

window-update_other :
    (c : ℕ) (buf : ℕ → ℕ) (s b i n : ℕ)
    → i + n ≤ s
    → s < i + c
    → window c (update buf (s % c) b) i n ≡ window c buf i n
unfolding window
window-update_other c buf s b i zero before near = refl
window-update_other c buf s b i (suc n) before near =
    let other : s % c ≢ i % c = λ e. mod-ne i s c (omega arith) (omega arith) near (sym e) in
    ap₂ (λ (x : ℕ) (xs : List ℕ). x ∷ xs) (ground (arith, other))
      (window-update_other c buf s b (i + 1) n (omega arith) (omega arith))

-- Windows that end before the bytes are written, and begin less than a round before their end, stay.
pub window-ring_write_other :
    (c s : ℕ) (bs : List ℕ) (buf : ℕ → ℕ) (i n : ℕ)
    → i + n ≤ s
    → s + length bs ≤ i + c
    → window c (ring_write c s bs buf) i n ≡ window c buf i n
unfolding ring_write
window-ring_write_other c s [] buf i n before near = refl
window-ring_write_other c s (b ∷ bs) buf i n before near =
    window-ring_write_other c (s + 1) bs (update buf (s % c) b) i n (omega arith) (omega arith)
    ∙ window-update_other c buf s b i n before (omega arith)

-- The bytes that are written stand in their window.
pub window-ring_write :
    (c s : ℕ) (bs : List ℕ) (buf : ℕ → ℕ)
    → length bs ≤ c
    → window c (ring_write c s bs buf) s (length bs) ≡ bs
unfolding ring_write window
window-ring_write c s [] buf fits = refl
window-ring_write c s (b ∷ bs) buf fits =
    let here : update buf (s % c) b (s % c) ≡ b = ground arith in
    let first =
      window-ring_write_other c (s + 1) bs (update buf (s % c) b) s 1 (omega arith) (omega arith) in
    ap₂ (λ (x : ℕ) (xs : List ℕ). x ∷ xs) (ap (λ (xs : List ℕ). get_or xs 0 0) first ∙ here)
      (window-ring_write c (s + 1) bs (update buf (s % c) b) (omega arith))
