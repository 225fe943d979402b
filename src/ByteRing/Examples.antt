-- ===== src/ByteRing/Examples.antt =====
-- Tests of the byte ring of core/queue/spsc_byte_ring.h.
use nebula_x_trader.Prelude.{ℕ, ◌+◌, ◌-◌, ◌≡◌, refl, List, [], ◌∷◌, ◌++◌, arith}
use nebula_x_trader.ByteRing.{
  ByteRing, read_at, read_acquire, read_release, push, push_wrapped, pop,
}
use nebula_x_trader.ByteRing.Pop.{pop-rereads}

-- 10 bytes unread, of which 6 stand before the end of the ring
abbrev ring : ByteRing
ring = record { buf = λ (i : ℕ). i + 100; capacity = 16; head = 10; tail = 20 }

-- room for 6 bytes, of which 1 is before the end
abbrev nearly_full : ByteRing
nearly_full = record ring { head = 21; tail = 31 }

acquired : read_acquire ring 8 ≡ 6
unfolding read_acquire
acquired = refl

popped_again : (pop ring 8).0 ≡ (110 ∷ 111 ∷ 112 ∷ 113 ∷ 114 ∷ 115 ∷ 110 ∷ 111 ∷ [])
unfolding pop read_acquire read_at
popped_again = refl

popped_in_one : (pop ring 5).0 ≡ (110 ∷ 111 ∷ 112 ∷ 113 ∷ 114 ∷ [])
unfolding pop read_acquire read_at
popped_in_one = refl

pushed_past_the_end :
    ((push nearly_full (1 ∷ 2 ∷ 3 ∷ [])).0 ≡ 3) × ((push nearly_full (1 ∷ 2 ∷ 3 ∷ [])).1.tail ≡ 35)
unfolding push push_wrapped
pushed_past_the_end = (refl, refl)

pop-rereads_example : pop ring 8 ≡ (
  read_at (read_acquire ring 8) 10 ring.buf ++ read_at (8 - read_acquire ring 8) 10 ring.buf,
  read_release ring 8,
)
pop-rereads_example =
    pop-rereads ring 8 (rw acquired (omega arith)) (rw acquired (omega arith))
      (rw acquired (omega arith))

-- a head and one byte of the body, with room for 16 bytes, of which 13 are before the end
abbrev message : List ℕ
message = 0 ∷ 0 ∷ 0 ∷ 0 ∷ 0 ∷ 0 ∷ 0 ∷ 5 ∷ 0 ∷ 1 ∷ 83 ∷ []

abbrev drained : ByteRing
drained = record ring { head = 19; tail = 19 }
