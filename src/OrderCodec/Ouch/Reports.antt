-- ===== src/OrderCodec/Ouch/Reports.antt =====
-- The 'A' and 'E' reports, and the exchange's reference numbers.
use nebula_x_trader.Prelude.{
  ℕ, ◌*◌, ◌/◌, ◌%◌, ◌^◌, ◌<◌, ◌≤◌, ◌≡◌, refl, ap, ◌∙◌, Option, some, none, List, arith,
}
use mathlib.Core.Path.{subst}
use nebula_x_trader.Prelude.Int.{ℤ, pos}
use nebula_x_trader.Prelude.Words.{u64_mod}
use nebula_x_trader.Prelude.Dict.{lookup, insert, lookup-insert}
use nebula_x_trader.Prelude.Bytes.{cells, cells_lem, to_be, from_be, from_be-to_be}
use nebula_x_trader.Prelude.Decimal.{strtoull}
use nebula_x_trader.Types.{Order, Fill}
use nebula_x_trader.OrderCodec.Ouch.{
  OuchOrderCodec, spaces, token_for, book_for, side_char, ouch_price, ref_for, ack_frame,
  exec_frame, encode_ack, encode_exec, read_report, decode_fill,
}
use nebula_x_trader.OrderCodec.Ouch.Frames.{
  length-book_for, length-token_for, strtoull-token_for, read32, read_price,
}
use nebula_x_trader.OrderCodec.Ouch.Enter.{same}

-- the order that a report names, as the codec sees it
named : OuchOrderCodec → ℕ → List ℕ → ℕ
named k ref token = elim (lookup ref k.ref_to_id) [ some id ↦ id | none ↦ strtoull token ]

named-unseen :
    (k : OuchOrderCodec) (ref : ℕ) (token : List ℕ)
    → lookup ref k.ref_to_id ≡ none
    → named k ref token ≡ strtoull token
unfolding named
named-unseen k ref token h = ground arith

named-known :
    (k : OuchOrderCodec) (ref id : ℕ) (token : List ℕ)
    → lookup ref k.ref_to_id ≡ some id
    → named k ref token ≡ id
unfolding named
named-known k ref id token h = ground arith

ack_fields :
    (k : OuchOrderCodec) (token book : List ℕ) (ref side qty : ℕ)
    → let r = from_be (to_be 8 ref) in
      let id = named k r (cells 14 token) in
      decode_fill k (ack_frame ref (cells 14 token) side qty (cells 10 book)) ≡ (
        some (record {
          kind = b'A';
          order_id = id;
          exchange_ref = r;
          filled_qty = 0;
          fill_price = pos 0;
        }),
        record k { ref_to_id = insert r id k.ref_to_id },
      )
unfolding decode_fill read_report named ack_frame to_be spaces
ack_fields k token book ref side qty = rw (same _) refl

exec_fields :
    (k : OuchOrderCodec) (token : List ℕ) (ref qty price : ℕ)
    → let r = from_be (to_be 8 ref) in
      decode_fill k (exec_frame ref (cells 14 token) qty price) ≡ (
        some (record {
          kind = b'E';
          order_id = named k r (cells 14 token);
          exchange_ref = r;
          filled_qty = from_be (to_be 4 qty);
          fill_price = pos (from_be (to_be 4 price) / 100);
        }),
        k,
      )
unfolding decode_fill read_report named exec_frame to_be spaces
exec_fields k token ref qty price = rw (same _) refl

-- the acknowledgement of an order that this codec has not seen yet
ack_read :
    (k : OuchOrderCodec) (id side qty symbol ref : ℕ)
    → id < 10 ^ 14
    → ref < u64_mod
    → lookup ref k.ref_to_id ≡ none
    → decode_fill k (ack_frame ref (token_for id) side qty (book_for symbol)) ≡ (
      some (record {
        kind = b'A';
        order_id = id;
        exchange_ref = ref;
        filled_qty = 0;
        fill_price = pos 0;
      }),
      record k { ref_to_id = insert ref id k.ref_to_id },
    )
ack_read k id side qty symbol ref small word unseen =
    subst (λ (bk : List ℕ). decode_fill k (ack_frame ref (token_for id) side qty bk) ≡ answer)
      (cells_lem 10 (book_for symbol) (length-book_for symbol))
      (subst
        (λ (t : List ℕ).
          decode_fill k (ack_frame ref t side qty (cells 10 (book_for symbol))) ≡ answer)
        (cells_lem 14 (token_for id) (length-token_for id small))
        (ack_fields k (token_for id) (book_for symbol) ref side qty
          ∙ rw
              (
                from_be-to_be 8 ref word,
                named-unseen k ref (cells 14 (token_for id)) unseen,
                cells_lem 14 (token_for id) (length-token_for id small),
                strtoull-token_for id small,
              )
              refl))
  where
    answer : Option Fill × OuchOrderCodec
    answer = (
      some (record {
        kind = b'A';
        order_id = id;
        exchange_ref = ref;
        filled_qty = 0;
        fill_price = pos 0;
      }),
      record k { ref_to_id = insert ref id k.ref_to_id },
    )

exec_read :
    (k : OuchOrderCodec) (id token_id qty cents ref : ℕ)
    → token_id < 10 ^ 14
    → ref < u64_mod
    → cents * 100 < 2 ^ 32
    → lookup ref k.ref_to_id ≡ some id
    → (decode_fill k (exec_frame ref (token_for token_id) qty (ouch_price (pos cents)))).0
      ≡ some (record {
        kind = b'E';
        order_id = id;
        exchange_ref = ref;
        filled_qty = qty % 2 ^ 32;
        fill_price = pos cents;
      })
exec_read k id token_id qty cents ref small word price_small known =
    subst
      (λ (t : List ℕ).
        (decode_fill k (exec_frame ref t qty (ouch_price (pos cents)))).0
        ≡ some (record {
          kind = b'E';
          order_id = id;
          exchange_ref = ref;
          filled_qty = qty % 2 ^ 32;
          fill_price = pos cents;
        }))
      (cells_lem 14 (token_for token_id) (length-token_for token_id small))
      (ap (λ (p : Option Fill × OuchOrderCodec). p.0)
          (exec_fields k (token_for token_id) ref qty (ouch_price (pos cents)))
        ∙ rw
            (
              from_be-to_be 8 ref word,
              named-known k ref id (cells 14 (token_for token_id)) known,
              read32 qty,
              read_price cents price_small,
            )
            refl)

ref_for-again :
    (x : OuchOrderCodec) (id : ℕ) → lookup id (ref_for x id).1.id_to_ref ≡ some (ref_for x id).0
unfolding ref_for
ref_for-again x id = ground (arith, lookup-insert id id x.next_ref x.id_to_ref)

ref_for-known :
    (x : OuchOrderCodec) (id ref : ℕ) → lookup id x.id_to_ref ≡ some ref → ref_for x id ≡ (ref, x)
unfolding ref_for
ref_for-known x id ref h = ground arith

acked :
    (x : OuchOrderCodec) (o : Order) (cap : ℕ)
    → 39 ≤ cap
    → encode_ack x o cap ≡ (
      some (
          ack_frame
            (ref_for x o.order_id).0
            (token_for o.order_id)
            (side_char o.side)
            o.quantity
            (book_for o.symbol_id)),
      (ref_for x o.order_id).1,
    )
unfolding encode_ack
acked x o cap room = ground arith

executed :
    (x : OuchOrderCodec) (id qty cap ref : ℕ) (price : ℤ)
    → 42 ≤ cap
    → lookup id x.id_to_ref ≡ some ref
    → (encode_exec x id qty price cap).0
      ≡ some (exec_frame ref (token_for id) qty (ouch_price price))
unfolding encode_exec
executed x id qty cap ref price room known = ground (arith, ref_for-known x id ref known)

-- The exchange acknowledges an order and then reports an execution; the trader decodes both in that
-- order with a codec to which the reference number is new. Both reports name the order's id and the
-- same reference number, and the second one the executed quantity, cut to 32 bits, and the price.
-- The id has up to 14 digits, the price fits the 32 bits of the protocol.
pub ack_then_execution :
    (exchange trader : OuchOrderCodec) (o : Order) (qty cents cap : ℕ)
    → o.order_id < 10 ^ 14
    → (ref_for exchange o.order_id).0 < u64_mod
    → lookup (ref_for exchange o.order_id).0 trader.ref_to_id ≡ none
    → cents * 100 < 2 ^ 32
    → 42 ≤ cap
    → let ref = (ref_for exchange o.order_id).0 in
      (ack exec : List ℕ) × ((encode_ack exchange o cap).0 ≡ some ack)
      × ((encode_exec (encode_ack exchange o cap).1 o.order_id qty (pos cents) cap).0 ≡ some exec)
      × ((decode_fill trader ack).0
          ≡ some (record {
            kind = b'A';
            order_id = o.order_id;
            exchange_ref = ref;
            filled_qty = 0;
            fill_price = pos 0;
          }))
      × ((decode_fill (decode_fill trader ack).1 exec).0
          ≡ some (record {
            kind = b'E';
            order_id = o.order_id;
            exchange_ref = ref;
            filled_qty = qty % 2 ^ 32;
            fill_price = pos cents;
          }))
ack_then_execution exchange trader o qty cents cap small word unseen price_small room =
    let id = o.order_id in
    let ref = (ref_for exchange id).0 in
    let frame = ack_frame ref (token_for id) (side_char o.side) o.quantity (book_for o.symbol_id) in
    let sent = acked exchange o cap (omega arith) in
    let learned = record trader { ref_to_id = insert ref id trader.ref_to_id } in
    let read = ack_read trader id (side_char o.side) o.quantity o.symbol_id ref small word unseen in
    (
      frame,
      exec_frame ref (token_for id) qty (ouch_price (pos cents)),
      ap (λ (p : Option (List ℕ) × OuchOrderCodec). p.0) sent,
      ap (λ (p : Option (List ℕ) × OuchOrderCodec). (encode_exec p.1 id qty (pos cents) cap).0) sent
          ∙ executed (ref_for exchange id).1 id qty cap ref (pos cents) room
              (ref_for-again exchange id),
      ap (λ (p : Option Fill × OuchOrderCodec). p.0) read,
      ap
            (λ (p : Option Fill × OuchOrderCodec).
              (decode_fill p.1 (exec_frame ref (token_for id) qty (ouch_price (pos cents)))).0)
            read
          ∙ exec_read learned id id qty cents ref small word price_small
              (ground (arith, lookup-insert ref ref id trader.ref_to_id)),
    )
