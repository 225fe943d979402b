-- ===== src/OrderBook/Ghost.antt =====
-- What is left of a level whose only order is filled.
use nebula_x_trader.Prelude.{
  ℕ, ◌-◌, ◌%◌, ◌^◌, ◌≡◌, ◌≢◌, refl, sym, ◌∙◌, false, none, some, arith, ◌==◌, Bool-cases, inl, inr,
}
use nebula_x_trader.Prelude.Words.{IsInt64}
use nebula_x_trader.Types.{OrderSlot}
use nebula_x_trader.OrderBook.{sub32, dec_table, unlink_table, pop_level}
use nebula_x_trader.OrderBook.Levels.{
  Table, PriceLevel, empty_level, level_at, set_level, find, is_better,
}
use nebula_x_trader.OrderBook.Levels.Locate.{IsPrice, eqb_refl}
use nebula_x_trader.OrderBook.Levels.Valid.{IsValid}
use nebula_x_trader.OrderBook.Levels.Map.{HasRoom, find-set_level, HasRoom-set_level}
use nebula_x_trader.OrderBook.Levels.Erase.{HasRoom-erase}
use nebula_x_trader.OrderBook.Levels.Top.{top_of_book}
use nebula_x_trader.OrderBook.Quantities.{dec_table_lem, unlink_table_lem}

-- the level that is made when the order is taken out of a level that is gone
abbrev pub ghost : OrderSlot → PriceLevel
ghost s = pop_level empty_level s

module _ (t : Table) (s : OrderSlot) (l : PriceLevel) (v : IsValid t) (room : HasRoom t)
    (price : IsPrice s.price) (range : IsInt64 s.price) (there : find t s.price ≡ some l) where
  -- `dec_level_qty` on a level that stands takes no room
  dec_table-HasRoom : (shares : ℕ) → HasRoom (dec_table t s.price shares)
  unfolding dec_table
  dec_table-HasRoom shares =
      let now = ((level_at t s.price).1.slots (level_at t s.price).0).level in
      let written = record now { total_qty = sub32 now.total_qty shares } in
      let t' = set_level (level_at t s.price).1 (level_at t s.price).0 written in
      let room' = HasRoom-set_level t s.price l written v room price there in
      let v' = ((find-set_level t s.price v room price range).1 written).0 in
      elim (Bool-cases (sub32 now.total_qty shares == 0)) [
        | inl none_left ↦ rw none_left (HasRoom-erase t' s.price v' price room')
        | inr some_left ↦ rw some_left room'
      ]

  -- after `dec_level_qty` with all that the level has
  emptied :
      (shares : ℕ) → sub32 l.total_qty shares ≡ 0 → find (dec_table t s.price shares) s.price ≡ none
  emptied shares all =
      (dec_table_lem t s.price v room price range shares).1 s.price price
      ∙ rw (eqb_refl s.price, there, all) refl

  -- A level whose quantity is all taken, by the fill or the cancellation of its only order, is dropped by
  -- `dec_level_qty`; taking the order out of it then makes the level again, with 2^32 - 1 orders and a
  -- quantity below zero, modulo 2^32, and leaves it there. The best price is no worse than this one, and
  -- the table is not empty.
  pub filled_level_stays :
      (shares : ℕ)
      → sub32 l.total_qty shares ≡ 0
      → let t' = unlink_table (dec_table t s.price shares) s in
        (find t' s.price ≡ some (ghost s))
        × ((ghost s).count ≡ 2 ^ 32 - 1)
        × ((ghost s).total_qty ≡ (2 ^ 32 - s.shares % 2 ^ 32) % 2 ^ 32)
        × (is_better t'.is_bid s.price t'.best ≡ false)
        × (t'.count ≢ 0)
  filled_level_stays shares all =
      let gone = emptied shares all in
      let room' = dec_table-HasRoom shares in
      let v' = (dec_table_lem t s.price v room price range shares).0 in
      let (v'', differs) = unlink_table_lem (dec_table t s.price shares) s v' room' price range in
      let made : find (unlink_table (dec_table t s.price shares) s) s.price ≡ some (ghost s) =
        differs s.price price ∙ rw (eqb_refl s.price, gone) refl in
      let top = top_of_book (unlink_table (dec_table t s.price shares) s) v'' in
      let some_left : (unlink_table (dec_table t s.price shares) s).count ≢ 0 =
        λ none_left. none-ne-some (sym (top.0 none_left s.price price) ∙ made) in
      (
        made,
        refl,
        omega arith,
        (top.1 some_left).3 s.price price (λ nowhere. none-ne-some (sym nowhere ∙ made)),
        some_left,
      )
    where
      none-ne-some : {x : PriceLevel} → none ≡ some x → ⊥
      none-ne-some e = cc
