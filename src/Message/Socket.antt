-- ===== src/Message/Socket.antt =====
-- memtrace.h, sysdeps/linux-gnu/socket.c and client/client.c: the header of a message, and how the client
-- reads a message from the socket. What `read` returns, call by call, is a list of pieces; after
-- the last one the connection is closed.
pub mod Pieces
pub mod Header
use mtrace.Base.{
  ℕ, ◌+◌, ◌-◌, ◌==◌, ltb, leb, if◌then◌else◌, Bool, true, false, Option, none, some, List, [], ◌∷◌,
  ◌++◌, length, take, drop, Outcome, ok, aborted, fault, diverged, ◌>>=◌,
}
use mtrace.Message.Wire.{bytes_le, value_le, bswap}

pub record MtMsg : Type 0 where
  pub operation : ℕ
  pub pid : ℕ
  pub payload_len : ℕ

unfoldable pub swap_msg : MtMsg → MtMsg
swap_msg m = record {
  operation = bswap 2 m.operation;
  payload_len = bswap 4 m.payload_len;
  pid = bswap 2 m.pid;
}

-- The eight bytes of a header in memory.
unfoldable pub header_bytes : MtMsg → List ℕ
header_bytes m = bytes_le 2 m.operation ++ bytes_le 2 m.pid ++ bytes_le 4 m.payload_len

unfoldable pub header_of : List ℕ → MtMsg
header_of bs = record {
  operation = value_le (take 2 bs);
  pid = value_le (take 2 (drop 2 bs));
  payload_len = value_le (take 4 (drop 4 bs));
}

-- What is left of a piece; an empty piece would be read as the end of the connection.
abbrev pub left_over : List ℕ → List (List ℕ) → List (List ℕ)
left_over [] pieces = pieces
left_over (x ∷ xs) pieces = (x ∷ xs) ∷ pieces

abbrev pub in_front :
    List ℕ → Outcome (Option (List ℕ × List (List ℕ))) → Outcome (Option (List ℕ × List (List ℕ)))
in_front c (ok none) = ok none
in_front c (ok (some (bs, pieces))) = ok (some (c ++ bs, pieces))
in_front c aborted = aborted
in_front c fault = fault
in_front c diverged = diverged

-- The loop of `safe_read` with the bytes that it has read so far, which an `int` holds. Once it wraps, the
-- next read would write before the destination.
unfoldable pub read_from : ℕ → List (List ℕ) → ℕ → Outcome (Option (List ℕ × List (List ℕ)))
read_from off [] n = ok none
read_from off (c ∷ pieces) n =
    let rest = read_from (off + length c) pieces (n - length c) in
    if length c == 0
    then ok none
    else if leb n (length c)
    then ok (some (take n c, left_over (drop n c) pieces))
    else if ltb (off + length c) 2147483648
    then in_front c rest
    else fault

-- `n` bytes, and the pieces that are left; `none` for a result that is not positive.
unfoldable pub safe_read : List (List ℕ) → ℕ → Outcome (Option (List ℕ × List (List ℕ)))
safe_read pieces n = read_from 0 pieces n

-- A header whose operation does not fit into a byte comes from a host with the other byte order.
abbrev pub is_swapped : MtMsg → Bool
is_swapped m = ltb 0xff m.operation

unfoldable pub in_host_order : MtMsg → MtMsg
in_host_order m = if is_swapped m then swap_msg m else m

pub record Received : Type 0 where
  pub msg : MtMsg
  pub swap_endian : Bool
  pub payload : List ℕ

-- The payload, once the header is read.
abbrev pub with_payload :
    MtMsg → Bool → Option (List ℕ × List (List ℕ)) → Option (Received × List (List ℕ))
with_payload m s none = none
with_payload m s (some (bs, pieces)) =
    some (record { msg = m; swap_endian = s; payload = bs }, pieces)

unfoldable pub read_payload : MtMsg → List (List ℕ) → Outcome (Option (Received × List (List ℕ)))
read_payload h pieces =
    let m = in_host_order h in
    if m.payload_len == 0
    then ok (some (record { msg = m; swap_endian = is_swapped h; payload = [] }, pieces))
    else safe_read pieces m.payload_len >>= λ r. ok (with_payload m (is_swapped h) r)

-- What the header gives: the payload that follows, or nothing.
abbrev pub after_header :
    Option (List ℕ × List (List ℕ)) → Outcome (Option (Received × List (List ℕ)))
after_header none = ok none
after_header (some (bs, rest)) = read_payload (header_of bs) rest

unfoldable pub socket_read_msg : List (List ℕ) → Outcome (Option (Received × List (List ℕ)))
socket_read_msg pieces = safe_read pieces 8 >>= after_header
