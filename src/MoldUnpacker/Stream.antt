-- ===== src/MoldUnpacker/Stream.antt =====
-- A stream of packets in the layout of MoldUDP64, and the messages that come out of it.
mod Examples
use nebula_x_trader.Prelude.{
  ℕ, zero, suc, ◌+◌, ◌*◌, ◌^◌, ◌<◌, ◌≤◌, ◌≡◌, refl, sym, ap, ◌∙◌, Bool, true, false, ◌||◌, List, [],
  ◌∷◌, ◌++◌, ◌==◌, ltb, if◌then◌else◌, arith, length, take, drop, length-append, take_over,
  drop_over,
}
use mathlib.Core.Path.{subst}
use mathlib.Core.List.{append_assoc, append-nil}
use nebula_x_trader.Prelude.Words.{u64_mod, add64}
use nebula_x_trader.Prelude.Bytes.{cells, cells_lem, to_be, from_be, flat, slice, from_be-to_be}
use nebula_x_trader.MoldUnpacker.{
  Unpacked, header_len, message_frame, is_cut, unpack_messages, unpack_packets, feed,
}

drop_two : (n x y : ℕ) (zs : List ℕ) → drop (2 + n) (x ∷ y ∷ zs) ≡ drop n zs
drop_two n x y zs = ap (λ (k : ℕ). drop k (x ∷ y ∷ zs)) (two n)
  where
    two : (n : ℕ) → 2 + n ≡ suc (suc n)
    two n = omega arith

-- A message on the wire: its length in two bytes, and its body.
unfoldable pub encode_message : List ℕ → List ℕ
encode_message body = to_be 2 (length body) ++ body

-- the same behind its sequence number, as it is pushed
abbrev pub numbered_message : ℕ → List ℕ → List ℕ
numbered_message seq body = to_be 8 seq ++ encode_message body

abbrev pub IsBody : List ℕ → Type 0
IsBody body = (0 < length body) × (length body ≤ 200)

body_len-encode :
    (body rest : List ℕ)
    → IsBody body
    → from_be (slice 0 2 (encode_message body ++ rest)) ≡ length body
unfolding encode_message to_be
body_len-encode body rest v = from_be-to_be 2 (length body) (omega arith)

length-encode_message : (body : List ℕ) → length (encode_message body) ≡ 2 + length body
unfolding encode_message to_be
length-encode_message body = omega arith

not_cut : (body rest : List ℕ) → IsBody body → is_cut (encode_message body ++ rest) ≡ false
not_cut body rest v =
    rw (body_len-encode body rest v, length-append, length-encode_message body) (ground arith)

drop-encode : (body rest : List ℕ) → drop (2 + length body) (encode_message body ++ rest) ≡ rest
unfolding encode_message to_be
drop-encode body rest = drop_two (length body) _ _ (body ++ rest) ∙ drop_over body rest

frame-encode :
    (seq : ℕ) (body rest : List ℕ)
    → message_frame seq (length body) (encode_message body ++ rest) ≡ numbered_message seq body
unfolding message_frame encode_message to_be
frame-encode seq body rest = rw (take_over body rest, append-nil body) refl

one_message :
    (n seq : ℕ) (body rest : List ℕ)
    → IsBody body
    → let more = unpack_messages n (add64 seq 1) rest in
      unpack_messages (suc n) seq (encode_message body ++ rest) ≡ record {
        rest = more.rest;
        pushed = numbered_message seq body ∷ more.pushed;
        unpacked = suc more.unpacked;
      }
unfolding unpack_messages
one_message n seq body rest v =
    rw
      (
        unpack_messages,
        not_cut body rest v,
        body_len-encode body rest v,
        drop-encode body rest,
        frame-encode seq body rest,
      )
      refl

-- the messages of a packet on the wire, and as they are to be pushed
pub encode_messages : List (List ℕ) → List ℕ
encode_messages [] = []
encode_messages (body ∷ bodies) = encode_message body ++ encode_messages bodies

pub numbered : ℕ → List (List ℕ) → List (List ℕ)
numbered seq [] = []
numbered seq (body ∷ bodies) = numbered_message seq body ∷ numbered (add64 seq 1) bodies

abbrev pub AllBodies : List (List ℕ) → Type 0
AllBodies [] = Unit
AllBodies (body ∷ bodies) = IsBody body × AllBodies bodies

messages_unpacked :
    (bodies : List (List ℕ)) (seq : ℕ) (rest : List ℕ)
    → AllBodies bodies
    → unpack_messages (length bodies) seq (encode_messages bodies ++ rest)
      ≡ record { rest = rest; pushed = numbered seq bodies; unpacked = length bodies }
unfolding unpack_messages encode_messages numbered
messages_unpacked [] seq rest v = refl
messages_unpacked (body ∷ bodies) seq rest v =
    ap (unpack_messages (suc (length bodies)) seq)
      (append_assoc (encode_message body) (encode_messages bodies) rest)
    ∙ one_message (length bodies) seq body (encode_messages bodies ++ rest) v.0
    ∙ ap
        (λ (u : Unpacked). record {
          rest = u.rest;
          pushed = numbered_message seq body ∷ u.pushed;
          unpacked = suc u.unpacked;
        })
        (messages_unpacked bodies (add64 seq 1) rest v.1)

pub record Packet : Type 0 where
  pub session : List ℕ
  pub seq : ℕ
  pub bodies : List (List ℕ)

pub encode_packet : Packet → List ℕ
encode_packet p =
    p.session ++ (to_be 8 p.seq ++ (to_be 2 (length p.bodies) ++ encode_messages p.bodies))

pub record IsPacket (p : Packet) : Type 0 where
  pub session_len : length p.session ≡ 10
  pub word : p.seq < u64_mod
  pub count : length p.bodies < 2 ^ 16
  pub bodies_fit : AllBodies p.bodies

packet_cells :
    (fuel seq n : ℕ) (session tail : List ℕ)
    → seq < u64_mod
    → n < 2 ^ 16
    → let one = unpack_messages n seq tail in
      let more = unpack_packets fuel one.rest in
      unpack_packets (suc fuel) (cells 10 session ++ (to_be 8 seq ++ (to_be 2 n ++ tail)))
      ≡ record {
        rest = more.rest;
        pushed = one.pushed ++ more.pushed;
        unpacked = one.unpacked + more.unpacked;
      }
unfolding unpack_packets to_be
packet_cells fuel seq n session tail word count =
    rw (unpack_packets, long, from_be-to_be 8 seq word, from_be-to_be 2 n count) refl
  where
    long : ltb (length (cells 10 session ++ (to_be 8 seq ++ (to_be 2 n ++ tail)))) 20 ≡ false
    long = ground arith

regroup :
    (p : Packet) (tail : List ℕ)
    → encode_packet p ++ tail
      ≡ p.session
        ++ (to_be 8 p.seq ++ (to_be 2 (length p.bodies) ++ (encode_messages p.bodies ++ tail)))
unfolding encode_packet
regroup p tail =
    append_assoc p.session _ tail
    ∙ ap (λ (t : List ℕ). p.session ++ t)
        (append_assoc (to_be 8 p.seq) _ tail
          ∙ ap (λ (t : List ℕ). to_be 8 p.seq ++ t)
              (append_assoc (to_be 2 (length p.bodies)) (encode_messages p.bodies) tail))

one_packet :
    (fuel : ℕ) (p : Packet) (tail : List ℕ)
    → IsPacket p
    → let more = unpack_packets fuel tail in
      unpack_packets (suc fuel) (encode_packet p ++ tail) ≡ record {
        rest = more.rest;
        pushed = numbered p.seq p.bodies ++ more.pushed;
        unpacked = length p.bodies + more.unpacked;
      }
one_packet fuel p tail v =
    let n = length p.bodies in
    let body = encode_messages p.bodies ++ tail in
    ap (unpack_packets (suc fuel)) (
      regroup p tail
      ∙ ap (λ (t : List ℕ). t ++ (to_be 8 p.seq ++ (to_be 2 n ++ body)))
          (sym (cells_lem 10 p.session v.session_len)))
    ∙ packet_cells fuel p.seq n p.session body v.word v.count
    ∙ ap
        (λ (u : Unpacked). record {
          rest = (unpack_packets fuel u.rest).rest;
          pushed = u.pushed ++ (unpack_packets fuel u.rest).pushed;
          unpacked = u.unpacked + (unpack_packets fuel u.rest).unpacked;
        })
        (messages_unpacked p.bodies p.seq tail v.bodies_fit)

-- a stream of packets on the wire, the messages as they are to be pushed, and their number
pub encode_stream : List Packet → List ℕ
encode_stream [] = []
encode_stream (p ∷ ps) = encode_packet p ++ encode_stream ps

pub all_messages : List Packet → List (List ℕ)
all_messages [] = []
all_messages (p ∷ ps) = numbered p.seq p.bodies ++ all_messages ps

pub message_count : List Packet → ℕ
message_count [] = 0
message_count (p ∷ ps) = length p.bodies + message_count ps

abbrev pub AllPackets : List Packet → Type 0
AllPackets [] = Unit
AllPackets (p ∷ ps) = IsPacket p × AllPackets ps

stream_unpacked :
    (fuel : ℕ) (ps : List Packet)
    → length ps ≤ fuel
    → AllPackets ps
    → unpack_packets fuel (encode_stream ps)
      ≡ record { rest = []; pushed = all_messages ps; unpacked = message_count ps }
unfolding encode_stream all_messages message_count unpack_packets
stream_unpacked zero [] h v = refl
stream_unpacked (suc fuel) [] h v = refl
stream_unpacked zero (p ∷ ps) h v = absurd (omega arith)
stream_unpacked (suc fuel) (p ∷ ps) h v =
    one_packet fuel p (encode_stream ps) v.0
    ∙ ap
        (λ (u : Unpacked). record {
          rest = u.rest;
          pushed = numbered p.seq p.bodies ++ u.pushed;
          unpacked = length p.bodies + u.unpacked;
        })
        (stream_unpacked fuel ps (omega arith) v.1)

packets_fit : (ps : List Packet) → AllPackets ps → length ps ≤ length (encode_stream ps)
unfolding encode_stream encode_packet
packets_fit [] v = omega arith
packets_fit (p ∷ ps) v =
    rw (length-append, length-append p.session) (omega (arith, v.0.session_len, packets_fit ps v.1))

-- Of a stream of packets, each with a session of ten bytes, a 64-bit number and fewer than 2^16
-- messages of 1 to 200 bytes, `feed` reads every byte, pushes every message in order behind the
-- number of its packet plus its place in it, modulo 2^64, and returns how many there were.
pub packets_unpacked :
    (ps : List Packet)
    → AllPackets ps
    → feed (encode_stream ps)
      ≡ record { rest = []; pushed = all_messages ps; unpacked = message_count ps }
unfolding feed
packets_unpacked ps v = stream_unpacked (length (encode_stream ps)) ps (packets_fit ps v) v
