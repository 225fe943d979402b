-- ===== src/ByteRing/Pop.antt =====
-- `pop` where the first piece that can be read is shorter than what was asked for.
use nebula_x_trader.Prelude.{
  ℕ, ◌-◌, ◌%◌, ◌<◌, ◌≤◌, ◌≡◌, List, [], ◌++◌, ◌==◌, ltb, if◌then◌else◌, arith,
}
use nebula_x_trader.ByteRing.{ByteRing, read_at, read_acquire, read_release, pop}

-- Less than what could be read is read whole.
acquired-less :
    (r : ByteRing) (some less : ℕ)
    → 0 < less
    → less ≤ read_acquire r some
    → read_acquire r less ≡ less
unfolding read_acquire
acquired-less r some less h k = ground arith

-- Where the first piece that can be read is shorter than the request and no shorter than what then
-- remains of it, be it that the ring's end comes between or that fewer bytes are there, `pop` copies
-- the bytes at the head out a second time in place of those behind the first piece, and moves the
-- head by the whole request.
pub pop-rereads :
    (r : ByteRing) (len : ℕ)
    → 0 < read_acquire r len
    → read_acquire r len < len
    → len - read_acquire r len ≤ read_acquire r len
    → pop r len ≡ (
      read_at (read_acquire r len) (r.head % r.capacity) r.buf
          ++ read_at (len - read_acquire r len) (r.head % r.capacity) r.buf,
      read_release r len,
    )
unfolding pop
pop-rereads r len some short rest =
    rw (pop, acquired-less r len (len - read_acquire r len) (omega arith) rest)
      (third (read_acquire r len) some short)
  where
    third :
        (n : ℕ)
        → 0 < n
        → n < len
        → ◌≡◌ {A = List ℕ × ByteRing}
            (if n == 0
              then ([], r)
              else if n == len
              then (read_at n (r.head % r.capacity) r.buf, read_release r n)
              else if ltb (len - n) (len - n)
              then ([], r)
              else (
                read_at n (r.head % r.capacity) r.buf
                    ++ read_at (len - n) (r.head % r.capacity) r.buf,
                read_release r len,
              ))
            (
              read_at n (r.head % r.capacity) r.buf
                  ++ read_at (len - n) (r.head % r.capacity) r.buf,
              read_release r len,
            )
    third n h k = ground arith
