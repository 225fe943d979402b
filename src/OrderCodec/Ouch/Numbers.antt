-- ===== src/OrderCodec/Ouch/Numbers.antt =====
-- The reference numbers that the exchange's side of the codec allocates.
use nebula_x_trader.Prelude.{
  ℕ, ◌+◌, ◌<◌, ◌≤◌, ◌≡◌, some, List, [], ◌∷◌, arith, length, Option-cases, inl, inr,
}
use nebula_x_trader.Prelude.Words.{u64_mod}
use nebula_x_trader.Prelude.Dict.{lookup, lookup-insert, lookup-nil}
use nebula_x_trader.OrderCodec.Ouch.{OuchOrderCodec, new_ouch, ref_for}

-- Numbers in use are below the next one, and no two orders share one.
pub record IsNumbered (k : OuchOrderCodec) : Type 0 where
  pub below : (id ref : ℕ) → lookup id k.id_to_ref ≡ some ref → ref < k.next_ref
  pub distinct :
      (i j ref : ℕ) → lookup i k.id_to_ref ≡ some ref → lookup j k.id_to_ref ≡ some ref → i ≡ j

ref_for-IsNumbered :
    (k : OuchOrderCodec) (id : ℕ)
    → k.next_ref + 1 < u64_mod
    → IsNumbered k
    → IsNumbered (ref_for k id).1 × ((ref_for k id).1.next_ref ≤ k.next_ref + 1)
unfolding ref_for
ref_for-IsNumbered k id room v = elim (Option-cases (lookup id k.id_to_ref)) [
  | inr (ref, known) ↦ rw (known, ref_for) (v, omega arith)
  | inl fresh ↦
      rw (fresh, ref_for)
        (
          record {
            below =
                λ j ref h. ground (arith, lookup-insert id j k.next_ref k.id_to_ref, v.below j ref);
            distinct = λ i j ref h h'. ground (
              arith,
              lookup-insert id i k.next_ref k.id_to_ref,
              lookup-insert id j k.next_ref k.id_to_ref,
              v.below i ref,
              v.below j ref,
              v.distinct i j ref,
            );
          },
          omega arith,
        )
]

-- the codec after reports on these orders
pub allocate : List ℕ → OuchOrderCodec → OuchOrderCodec
allocate [] k = k
allocate (id ∷ ids) k = allocate ids (ref_for k id).1

allocate-IsNumbered_from :
    (ids : List ℕ) (k : OuchOrderCodec)
    → k.next_ref + length ids < u64_mod
    → IsNumbered k
    → IsNumbered (allocate ids k)
unfolding allocate
allocate-IsNumbered_from [] k room v = v
allocate-IsNumbered_from (id ∷ ids) k room v =
    let kept = ref_for-IsNumbered k id (omega arith) v in
    allocate-IsNumbered_from ids (ref_for k id).1 (omega (arith, kept.1)) kept.0

-- Whatever orders are reported on, and however often, by a new codec, no two of them get the same
-- reference number, as long as there are fewer than 2^64 - 1 reports.
allocate-IsNumbered : (ids : List ℕ) → length ids + 1 < u64_mod → IsNumbered (allocate ids new_ouch)
allocate-IsNumbered ids short = allocate-IsNumbered_from ids new_ouch (omega arith) (record {
  below = λ id ref h. absurd (cc (lookup-nil {V = ℕ} id));
  distinct = λ i j ref h h'. absurd (cc (lookup-nil {V = ℕ} i));
})
