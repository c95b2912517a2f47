-- ===== src/Message/Tests.antt =====
-- client/process.c: integers in messages, on concrete bytes.
use mtrace.Base.{Ends, ok, List, ℕ, ◌≡◌, refl, true, some, [], ◌∷◌, ◌++◌, arith}
use mtrace.Message.Wire.{Format, bswap, bytes_le, value_le, get_ulong, put_ulong}
use mtrace.Message.Socket.{
  MtMsg, swap_msg, header_bytes, header_of, is_swapped, in_host_order, read_from, safe_read,
  read_payload, socket_read_msg,
}
use mtrace.Message.Socket.Pieces.{stream, ReadsFront, safe_read-ReadsFront}
use mtrace.Message.Socket.Header.{in_host_order-header}
use mtrace.Message.Codec.{get_ulong-put_ulong}

abbrev swapped : Format
swapped = record { is_64bit = true; swap_endian = true }

big_endian : put_ulong swapped 258 ≡ 0 ∷ 0 ∷ 0 ∷ 0 ∷ 0 ∷ 0 ∷ 1 ∷ 2 ∷ []
unfolding put_ulong bswap bytes_le value_le
big_endian = refl

get_ulong-put_ulong_example : get_ulong swapped (put_ulong swapped 258 ++ 7 ∷ []) ≡ some 258
get_ulong-put_ulong_example = get_ulong-put_ulong swapped 258 (7 ∷ []) (omega arith)

-- A message of the operation 14 for process 42, with 3 bytes, from a host with the other byte order.
abbrev message : MtMsg
message = record { operation = 14; pid = 42; payload_len = 3 }

in_host_order-header_example :
    (in_host_order (header_of (header_bytes (swap_msg message))) ≡ message)
    × (is_swapped (header_of (header_bytes (swap_msg message))) ≡ true)
in_host_order-header_example =
    in_host_order-header true message
      (record { operation = omega arith; pid = omega arith; payload_len = omega arith })
      (omega arith) (omega arith)

-- It arrives in three pieces.
abbrev pieces : List (List ℕ)
pieces = (0 ∷ 14 ∷ 0 ∷ []) ∷ (42 ∷ 0 ∷ 0 ∷ 0 ∷ 3 ∷ 7 ∷ []) ∷ (8 ∷ 9 ∷ 1 ∷ []) ∷ []

safe_read-ReadsFront_example : Ends ⊥ (ReadsFront (stream pieces) 8) (safe_read pieces 8)
safe_read-ReadsFront_example =
    safe_read-ReadsFront pieces 8 (omega arith, (omega arith, (omega arith, tt))) (omega arith)
      (omega arith) (omega arith)

received :
    socket_read_msg pieces
    ≡ ok (
        some
          (record { msg = message; swap_endian = true; payload = 7 ∷ 8 ∷ 9 ∷ [] }, (1 ∷ []) ∷ []))
unfolding socket_read_msg safe_read read_from header_of read_payload in_host_order swap_msg bswap
    bytes_le value_le
received = refl
