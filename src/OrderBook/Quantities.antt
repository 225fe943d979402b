-- ===== src/OrderBook/Quantities.antt =====
-- What `dec_level_qty` and `unlink_and_free` do to the level of an order.
use mathlib.Core.Path.{subst}
use nebula_x_trader.Prelude.{
  ℕ, ◌≡◌, refl, ◌∙◌, Bool, Option, none, some, ◌==◌, if◌then◌else◌, Bool-cases, inl, inr,
}
use nebula_x_trader.Prelude.Int.{ℤ, eqb_ℤ}
use nebula_x_trader.Prelude.Words.{IsInt64}
use nebula_x_trader.Types.{OrderSlot}
use nebula_x_trader.OrderBook.{sub32, dec_table, unlink_table, pop_level}
use nebula_x_trader.OrderBook.Levels.{Table, PriceLevel, level_at, set_level, erase, find}
use nebula_x_trader.OrderBook.Levels.Locate.{IsPrice}
use nebula_x_trader.OrderBook.Levels.Valid.{IsValid}
use nebula_x_trader.OrderBook.Levels.Map.{HasRoom, get_or_empty, find-set_level}
use nebula_x_trader.OrderBook.Levels.Erase.{find-erase}

-- A table is valid, and holds what another does but at one price.
abbrev pub Differs : Table → ℤ → Option PriceLevel → Table → Type 0
Differs t p o t' =
    IsValid t' × ((q : ℤ) → IsPrice q → find t' q ≡ (if eqb_ℤ p q then o else find t q))

module _ (t : Table) (p : ℤ) (v : IsValid t) (room : HasRoom t) (price : IsPrice p)
    (range : IsInt64 p) where
  -- the level that is written back, or dropped where the test says so
  edited :
      (l : PriceLevel) (drop : Bool)
      → let t' = set_level (level_at t p).1 (level_at t p).0 l in
        Differs t p (if drop then none else some l) (if drop then erase t' p else t')
  edited l drop =
      let (v', written) = (find-set_level t p v room price range).1 l in
      let (v'', erased) = find-erase (set_level (level_at t p).1 (level_at t p).0 l) p v' price in
      elim (Bool-cases drop) [
        | inl dropped ↦ rw dropped (v'', λ q q_price. erased q q_price ∙ both q q_price l written)
        | inr kept ↦ rw kept (v', written)
      ]
    where
      both :
          (q : ℤ)
          → IsPrice q
          → (l : PriceLevel)
          → ((q : ℤ)
              → IsPrice q
              → find (set_level (level_at t p).1 (level_at t p).0 l) q
                ≡ (if eqb_ℤ p q then some l else find t q))
          → (if eqb_ℤ p q then none else find (set_level (level_at t p).1 (level_at t p).0 l) q)
            ≡ (if eqb_ℤ p q then none else find t q)
      both q q_price l written = elim (Bool-cases (eqb_ℤ p q)) [
        | inl same ↦ rw same refl
        | inr other ↦ rw other (written q q_price ∙ rw other refl)
      ]

  -- `dec_level_qty` takes shares from the level's quantity, modulo 2^32, and drops the level where none are
  -- left; no other price is touched.
  pub dec_table_lem :
      (shares : ℕ)
      → let l = get_or_empty (find t p) in
        let left = sub32 l.total_qty shares in
        Differs t p
          (if left == 0 then none else some (record l { total_qty = left }))
          (dec_table t p shares)
  unfolding dec_table
  dec_table_lem shares =
      subst
        (λ (l : PriceLevel).
          let left = sub32 l.total_qty shares in
          let t' =
            set_level (level_at t p).1 (level_at t p).0
              (record ((level_at t p).1.slots (level_at t p).0).level {
                total_qty = sub32 ((level_at t p).1.slots (level_at t p).0).level.total_qty shares;
              }) in
          Differs t p (if left == 0 then none else some (record l { total_qty = left })) (
            if sub32 ((level_at t p).1.slots (level_at t p).0).level.total_qty shares == 0
            then erase t' p
            else t'))
        (find-set_level t p v room price range).0
        (edited
          (record ((level_at t p).1.slots (level_at t p).0).level {
            total_qty = sub32 ((level_at t p).1.slots (level_at t p).0).level.total_qty shares;
          })
          (sub32 ((level_at t p).1.slots (level_at t p).0).level.total_qty shares == 0))

-- `unlink_and_free` takes an order out of the level at its price, with all the shares that it was added
-- with, and drops the level where no order is left; no other price is touched.
pub unlink_table_lem :
    (t : Table) (s : OrderSlot)
    → IsValid t
    → HasRoom t
    → IsPrice s.price
    → IsInt64 s.price
    → let l = pop_level (get_or_empty (find t s.price)) s in
      Differs t s.price (if l.count == 0 then none else some l) (unlink_table t s)
unfolding unlink_table
unlink_table_lem t s v room price range =
    subst
      (λ (l : PriceLevel).
        let left = pop_level l s in
        let now = pop_level ((level_at t s.price).1.slots (level_at t s.price).0).level s in
        let t' = set_level (level_at t s.price).1 (level_at t s.price).0 now in
        Differs t s.price (if left.count == 0 then none else some left)
          (if now.count == 0 then erase t' s.price else t'))
      (find-set_level t s.price v room price range).0
      (edited t s.price v room price range
        (pop_level ((level_at t s.price).1.slots (level_at t s.price).0).level s)
        ((pop_level ((level_at t s.price).1.slots (level_at t s.price).0).level s).count == 0))
