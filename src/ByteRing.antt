-- ===== src/ByteRing.antt =====
-- `SPSCByteRing` of core/queue/spsc_byte_ring.h: the byte ring between the receiving thread and the
-- parser. The capacity is a power of two, so that `& mask` is a remainder.
mod Examples
pub mod Pop
pub mod Push
pub mod Cells
pub mod Pushed
pub mod Stores
use nebula_x_trader.Prelude.{
  ℕ, zero, suc, ◌+◌, ◌-◌, ◌*◌, ◌/◌, ◌%◌, Bool, true, false, ◌||◌, List, [], ◌∷◌, ◌++◌, ◌==◌, ltb,
  leb, if◌then◌else◌, length, take, drop,
}
use nebula_x_trader.Prelude.Words.{u64_mod, add64, sub64}
use nebula_x_trader.Prelude.Sum.{update}

-- `kHeaderBytes`
abbrev pub header_bytes : ℕ
header_bytes = 10

-- The members; `buf` is read and written below `capacity` only. Head and tail only grow.
pub record ByteRing : Type 0 where
  pub buf : ℕ → ℕ
  pub capacity : ℕ
  pub head : ℕ
  pub tail : ℕ

-- `memcpy` into the ring at `i`, and out of it
unfoldable pub write_at : ℕ → List ℕ → (ℕ → ℕ) → ℕ → ℕ
write_at i [] buf = buf
write_at i (b ∷ bs) buf = write_at (suc i) bs (update buf i b)

unfoldable pub read_at : ℕ → ℕ → (ℕ → ℕ) → List ℕ
read_at zero i buf = []
read_at (suc n) i buf = buf i ∷ read_at n (i + 1) buf

-- the branch of `push` that wraps with the header in what is left at the end
unfoldable pub push_split : ByteRing → List ℕ → ℕ → ℕ → ByteRing
push_split r msg pos tail_room =
    let body_room = tail_room - header_bytes in
    let body = drop header_bytes msg in
    let headed = write_at pos (take header_bytes msg) r.buf in
    let filled = write_at (pos + header_bytes) (take body_room body) headed in
    record r {
      buf =
          if ltb body_room (length body)
          then write_at 0 (drop body_room body) filled
          else write_at (pos + header_bytes) body headed;
      tail = add64 r.tail (length msg);
    }

-- `push` across the end of the ring
unfoldable pub push_wrapped : ByteRing → List ℕ → ℕ × ByteRing
push_wrapped r msg =
    let pos = r.tail % r.capacity in
    let aligned = (r.tail / r.capacity + 1) * r.capacity % u64_mod in
    let tail_room = r.capacity - pos in
    if ltb (add64 r.head r.capacity) (add64 aligned (length msg))
    then (0, r)
    else if leb header_bytes tail_room
    then (length msg, push_split r msg pos tail_room)
    else (length msg, record r { buf = write_at 0 msg r.buf; tail = add64 aligned (length msg) })

unfoldable pub push : ByteRing → List ℕ → ℕ × ByteRing
push r msg =
    let pos = r.tail % r.capacity in
    let free = sub64 r.capacity (sub64 r.tail r.head) in
    let len = length msg in
    if leb (pos + len) r.capacity
    then (if ltb free len || len == 0
        then (0, r)
        else (len, record r { buf = write_at pos msg r.buf; tail = add64 r.tail len }))
    else push_wrapped r msg

-- `read_acquire`: how many bytes can be read in one piece, from where the head is
unfoldable pub read_acquire : ByteRing → ℕ → ℕ
read_acquire r request =
    let used = sub64 r.tail r.head in
    let contig = r.capacity - r.head % r.capacity in
    let actual = if ltb request used then request else used in
    if used == 0 || request == 0 then 0 else if ltb contig actual then contig else actual

abbrev pub read_release : ByteRing → ℕ → ByteRing
read_release r bytes = record r { head = add64 r.head bytes }

-- `pop`: what is copied out, and the ring after it
unfoldable pub pop : ByteRing → ℕ → List ℕ × ByteRing
pop r len =
    let pos = r.head % r.capacity in
    let n1 = read_acquire r len in
    let n2 = read_acquire r (len - n1) in
    if n1 == 0
    then ([], r)
    else if n1 == len
    then (read_at n1 pos r.buf, read_release r n1)
    else if ltb n2 (len - n1)
    then ([], r)
    else (read_at n1 pos r.buf ++ read_at n2 pos r.buf, read_release r len)
