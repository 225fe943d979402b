-- ===== src/ByteRing/Push.antt =====
-- The room that `push` leaves.
use nebula_x_trader.Prelude.{
  ℕ, ◌+◌, ◌-◌, ◌*◌, ◌/◌, ◌%◌, ◌<◌, ◌≤◌, ◌≡◌, refl, sym, true, false, ◌||◌, if◌then◌else◌, List,
  ◌==◌, ltb, leb, arith, length,
}
use native.Mathlib.Nat.{div-add-mod', mod-lt, mod-eq_of_lt}
use nebula_x_trader.Prelude.Words.{u64_mod, add64, sub64}
use nebula_x_trader.ByteRing.{ByteRing, header_bytes, push_wrapped, push_split, write_at}

-- The bytes in the ring are no more than its capacity.
abbrev pub Fits : ByteRing → Type 0
Fits r = (r.head ≤ r.tail) × (r.tail ≤ r.head + r.capacity)

pub next_lap : (t c : ℕ) → 0 < c → (t ≤ (t / c + 1) * c) × ((t / c + 1) * c ≤ t + c)
next_lap t c h =
    let whole = div-add-mod' t c in
    let split : (t / c + 1) * c ≡ t / c * c + c = grind arith in
    let below : t % c < c = mod-lt t h in (omega arith, omega arith)

unwrapped_sub : (a b : ℕ) → b ≤ a → a < u64_mod → sub64 a b ≡ a - b
unwrapped_sub a b h k = ground arith

unwrapped_add : (a b : ℕ) → a + b < u64_mod → add64 a b ≡ a + b
unwrapped_add a b h = ground arith

-- what the check of the room in one piece says
pub has_room :
    (r : ByteRing) (n : ℕ)
    → Fits r
    → r.tail + r.capacity + n < u64_mod
    → (ltb (sub64 r.capacity (sub64 r.tail r.head)) n || n == 0) ≡ false
    → r.tail + n ≤ r.head + r.capacity
has_room r n fits small h =
    let used : ℕ = r.tail - r.head in
    let a = unwrapped_sub r.tail r.head fits.0 (omega arith) in
    let b = unwrapped_sub r.capacity used (omega arith) (omega arith) in
    let fact : (ltb (r.capacity - used) n || n == 0) ≡ false = rw (sym b, sym a) h in ground arith

-- and what it says where it fails, for a message of some length
pub no_room :
    (r : ByteRing) (n : ℕ)
    → Fits r
    → r.tail + r.capacity + n < u64_mod
    → 0 < n
    → (ltb (sub64 r.capacity (sub64 r.tail r.head)) n || n == 0) ≡ true
    → r.head + r.capacity < r.tail + n
no_room r n fits small some h =
    let used : ℕ = r.tail - r.head in
    let a = unwrapped_sub r.tail r.head fits.0 (omega arith) in
    let b = unwrapped_sub r.capacity used (omega arith) (omega arith) in
    let fact : (ltb (r.capacity - used) n || n == 0) ≡ true = rw (sym b, sym a) h in ground arith

-- Where no index reaches 2^64, the next lap and the room in it are what they seem to be.
pub push_wrapped-exact :
    (r : ByteRing) (msg : List ℕ)
    → Fits r
    → 0 < r.capacity
    → r.tail + r.capacity + length msg < u64_mod
    → let aligned = (r.tail / r.capacity + 1) * r.capacity in
      let tail_room = r.capacity - r.tail % r.capacity in
      push_wrapped r msg ≡ (
        if ltb (r.head + r.capacity) (aligned + length msg)
        then (0, r)
        else if leb header_bytes tail_room
        then (length msg, push_split r msg (r.tail % r.capacity) tail_room)
        else (length msg, record r { buf = write_at 0 msg r.buf; tail = aligned + length msg }))
unfolding push_wrapped
push_wrapped-exact r msg fits some small =
    let aligned = (r.tail / r.capacity + 1) * r.capacity in
    let lap = next_lap r.tail r.capacity some in
    let start : aligned % u64_mod ≡ aligned = mod-eq_of_lt (omega arith) in
    let end = unwrapped_add aligned (length msg) (omega arith) in
    let limit = unwrapped_add r.head r.capacity (omega arith) in rw (start, end, limit) refl
