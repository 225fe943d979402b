-- ===== src/Strategy/Combiner.antt =====
-- `SignalCombiner` of strategy/combo/signal_combiner.h: a primary signal gives the direction, slave
-- signals the strength.
pub mod Strength
use nebula_x_trader.Prelude.{
  ℕ, Bool, true, false, not, ◌&&◌, ◌||◌, List, [], ◌∷◌, ◌++◌, if◌then◌else◌, length,
}
use nebula_x_trader.Prelude.Int.{ℤ, pos, ◌+ℤ◌, ◌-ℤ◌, ltb_ℤ, leb_ℤ}
use nebula_x_trader.Types.{OrderSide, buy, sell, no_side, Signal, strength_scale}

pub record SignalCombiner : Type 0 where
  pub primary : Signal
  pub slaves : List Signal

abbrev pub set_primary : SignalCombiner → Signal → SignalCombiner
set_primary c master = record c { primary = master }

abbrev pub add_slave : SignalCombiner → Signal → SignalCombiner
add_slave c slave = record c { slaves = c.slaves ++ (slave ∷ []) }

abbrev pub clear_slaves : SignalCombiner → SignalCombiner
clear_slaves c = record c { slaves = [] }

abbrev pub slave_count : SignalCombiner → ℕ
slave_count c = length c.slaves

abbrev pub is_none : OrderSide → Bool
is_none no_side = true
is_none _ = false

-- `==` on sides
abbrev pub same_side : OrderSide → OrderSide → Bool
same_side buy buy = true
same_side sell sell = true
same_side no_side no_side = true
same_side _ _ = false

-- the loop of `combine`: the strengths with the primary's direction and against it
unfoldable pub gather : OrderSide → List Signal → ℤ → ℤ → ℤ × ℤ
gather side [] same_dir opp_dir = (same_dir, opp_dir)
gather side (s ∷ rest) same_dir opp_dir =
    let skipped = gather side rest same_dir opp_dir in
    let agreed = gather side rest (same_dir +ℤ s.strength) opp_dir in
    let opposed = gather side rest same_dir (opp_dir +ℤ s.strength) in
    if is_none s.side || leb_ℤ s.strength (pos 0)
    then skipped
    else if same_side s.side side
    then agreed
    else opposed

-- from 0 to the full strength
abbrev pub clamp : ℤ → ℤ
clamp strength =
    let capped = if ltb_ℤ (pos strength_scale) strength then pos strength_scale else strength in
    if ltb_ℤ capped (pos 0) then pos 0 else capped

-- the strength of the primary, if it is positive
abbrev pub base_strength : Signal → ℤ
base_strength s = if ltb_ℤ (pos 0) s.strength then s.strength else pos 0

pub combine : SignalCombiner → Signal
combine c =
    let (same_dir, opp_dir) = gather c.primary.side c.slaves (pos 0) (pos 0) in
    if is_none c.primary.side
    then record c.primary { strength = pos 0 }
    else record c.primary { strength = clamp (base_strength c.primary +ℤ same_dir -ℤ opp_dir) }
