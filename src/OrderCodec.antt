-- ===== src/OrderCodec.antt =====
-- The interface `IOrderCodec` of oms/i_order_codec.h, over the codec's own state: an operation
-- returns the frame that it wrote into a buffer of the given capacity, or `none` for false.
pub mod Custom
pub mod Ouch
use nebula_x_trader.Prelude.{ℕ, Option, List}
use nebula_x_trader.Prelude.Int.{ℤ}
use nebula_x_trader.Types.{Order, Fill, BookQuote}

pub record OrderCodec (K : Type 0) : Type 0 where
  pub encode_order : K → Order → ℕ → Option (List ℕ) × K
  pub decode_order : K → List ℕ → Option Order
  pub encode_fill : K → ℕ → ℕ → ℤ → ℕ → Option (List ℕ) × K
  pub decode_fill : K → List ℕ → Option Fill × K
  pub encode_cancel_request : K → ℕ → ℕ → Option (List ℕ) × K
  pub encode_book_query : K → ℕ → ℕ → Option (List ℕ) × K
  pub decode_book : K → List ℕ → Option BookQuote
