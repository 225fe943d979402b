-- ===== src/Strategy/Volume/Strength.antt =====
-- The window of volumes, and the signal that it makes.
use nebula_x_trader.Prelude.{
  ℕ, zero, suc, ◌+◌, ◌*◌, ◌/◌, ◌^◌, ◌<◌, ◌≤◌, ◌≡◌, refl, ap, ◌∙◌, true, List, [], ◌∷◌, ◌==◌, ltb,
  if◌then◌else◌, arith, Bool-cases, inl, inr,
}
use native.Mathlib.Nat.{mul_comm, div-le_of_le-mul}
use nebula_x_trader.Prelude.Int.{pos, ◌≤ℤ◌, ltb_ℤ}
use nebula_x_trader.Prelude.Words.{u64_mod, add64, sub64, mul64, to_i64}
use nebula_x_trader.Types.{buy, no_side, MarketEvent}
use nebula_x_trader.Strategy.Breakout.{is_trade}
use nebula_x_trader.Strategy.Volume.{VolumeBreakout, sum_vols, volume_strength, remember, on_event}

-- the sum of volumes, without the bound of 64 bits
unfoldable pub total : List ℕ → ℕ
total [] = 0
total (v ∷ vs) = v + total vs

sum_vols-total :
    (vs : List ℕ) (acc : ℕ) → acc + total vs < u64_mod → sum_vols acc vs ≡ acc + total vs
unfolding sum_vols total
sum_vols-total [] acc h = omega arith
sum_vols-total (v ∷ vs) acc h =
    ap (λ (a : ℕ). sum_vols a vs) (exact acc v (total vs) h)
    ∙ sum_vols-total vs (acc + v) (omega arith)
    ∙ omega arith
  where
    exact : (a v t : ℕ) → a + (v + t) < u64_mod → add64 a v ≡ a + v
    exact a v t h = omega arith

quotient_le : (x n : ℕ) → x / n ≤ x
quotient_le x zero = omega arith
quotient_le x (suc n) = div-le_of_le-mul (suc n) (scaled x n)
  where
    scaled : (x n : ℕ) → x ≤ suc n * x
    scaled x n = omega (arith, mul_comm (suc n) x)

-- a quotient read as a signed word and cut at the full strength
capped-range :
    (q : ℕ)
    → q < 2 ^ 63
    → let s = to_i64 q in
      let c = if ltb_ℤ (pos 10_000) s then pos 10_000 else s in (pos 0 ≤ℤ c) × (c ≤ℤ pos 10_000)
capped-range q h = (ground arith, ground arith)

volume_strength-range :
    (sum threshold : ℕ)
    → threshold < sum
    → sum * 10_000 < 2 ^ 63
    → (pos 0 ≤ℤ volume_strength sum threshold) × (volume_strength sum threshold ≤ℤ pos 10_000)
unfolding volume_strength
volume_strength-range sum threshold above small = elim (Bool-cases (threshold == 0)) [
  | inl none_set ↦ rw (none_set, volume_strength) (omega arith, omega arith)
  | inr some_set ↦
      let x : ℕ = mul64 (sub64 sum threshold) 10_000 in
      rw (some_set, volume_strength)
        (capped-range (x / threshold) (omega (arith, quotient_le x threshold)))
]

-- the volumes in the window after a trade
abbrev pub window_after : VolumeBreakout → MarketEvent → List ℕ
window_after f ev = remember f.window ev.shares f.vols

-- A trade makes the signal BUY exactly if the volumes of the window, the trade's included and the
-- oldest dropped once the window is full, add up to more than the threshold, and else there is no
-- side. The strength is from 0 to full. The sum times 10000 stays below 2^63.
volume_decides :
    (ev : MarketEvent) (f : VolumeBreakout)
    → is_trade ev.kind ≡ true
    → total (window_after f ev) * 10_000 < 2 ^ 63
    → ((on_event ev f).vols ≡ window_after f ev)
      × ((on_event ev f).current
          ≡ (if ltb f.threshold (total (window_after f ev)) then buy else no_side))
      × (pos 0 ≤ℤ (on_event ev f).strength)
      × ((on_event ev f).strength ≤ℤ pos 10_000)
unfolding on_event
volume_decides ev f traded small =
    let vols = window_after f ev in
    let sum = sum_vols-total vols 0 (omega arith) ∙ zero_add (total vols) in
    let range = strength_range (total vols) f.threshold small in
    rw (traded, on_event, sum) (refl, refl, range.0, range.1)
  where
    zero_add : (n : ℕ) → 0 + n ≡ n
    zero_add n = omega arith

    strength_range :
        (sum threshold : ℕ)
        → sum * 10_000 < 2 ^ 63
        → let s = if ltb threshold sum then volume_strength sum threshold else pos 0 in
          (pos 0 ≤ℤ s) × (s ≤ℤ pos 10_000)
    strength_range sum threshold small = elim (Bool-cases (ltb threshold sum)) [
      | inl above ↦ rw above (volume_strength-range sum threshold (ground arith) small)
      | inr below ↦ rw below (omega arith, omega arith)
    ]
