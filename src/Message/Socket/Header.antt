-- ===== src/Message/Socket/Header.antt =====
-- client/client.c: the header of a message, from a host with either byte order.
use mtrace.Base.{ℕ, ◌≤◌, ◌<◌, ◌≡◌, refl, ltb, if◌then◌else◌, Bool, true, false, arith}
use mtrace.Message.Wire.{bytes_le, value_le, bswap}
use mtrace.Message.Codec.{pow256, value_le-bytes_le, bswap_bound, bswap_twice}
use mtrace.Message.Socket.{MtMsg, swap_msg, header_bytes, header_of, is_swapped, in_host_order}

-- The fields fit into their widths.
pub record HeaderOk (m : MtMsg) : Type 0 where
  pub operation : m.operation < pow256 2
  pub pid : m.pid < pow256 2
  pub payload_len : m.payload_len < pow256 4

header_of-bytes : (m : MtMsg) → HeaderOk m → header_of (header_bytes m) ≡ m
unfolding header_of header_bytes bytes_le
header_of-bytes m ok =
    rw
      (
        value_le-bytes_le 2 m.operation ok.operation,
        value_le-bytes_le 2 m.pid ok.pid,
        value_le-bytes_le 4 m.payload_len ok.payload_len,
      )
      refl

swap_msg-HeaderOk : (m : MtMsg) → HeaderOk (swap_msg m)
unfolding swap_msg
swap_msg-HeaderOk m = record {
  operation = bswap_bound 2 m.operation;
  pid = bswap_bound 2 m.pid;
  payload_len = bswap_bound 4 m.payload_len;
}

swap_msg_twice : (m : MtMsg) → HeaderOk m → swap_msg (swap_msg m) ≡ m
unfolding swap_msg
swap_msg_twice m ok =
    rw
      (
        bswap_twice 2 m.operation ok.operation,
        bswap_twice 2 m.pid ok.pid,
        bswap_twice 4 m.payload_len ok.payload_len,
      )
      refl

bswap_short : (v : ℕ) → 1 ≤ v → v < 256 → ltb 0xff (bswap 2 v) ≡ true
unfolding bswap bytes_le value_le
bswap_short v pos lt = ground arith

swapped-op : (m : MtMsg) → 1 ≤ m.operation → m.operation < 256 → is_swapped (swap_msg m) ≡ true
unfolding swap_msg
swapped-op m pos lt = bswap_short m.operation pos lt

-- A header whose operation is not 0 and fits into a byte is understood by the client whichever byte order
-- the sender has, and the client knows which one it is.
pub in_host_order-header :
    (swap : Bool) (m : MtMsg)
    → HeaderOk m
    → 1 ≤ m.operation
    → m.operation < 256
    → (in_host_order (header_of (header_bytes (if swap then swap_msg m else m))) ≡ m)
      × (is_swapped (header_of (header_bytes (if swap then swap_msg m else m))) ≡ swap)
unfolding in_host_order
in_host_order-header true m ok pos lt =
    rw (header_of-bytes (swap_msg m) (swap_msg-HeaderOk m))
      (rw (swapped-op m pos lt) (swap_msg_twice m ok, refl))
in_host_order-header false m ok pos lt =
    let plain_op : is_swapped m ≡ false = ground arith in
    rw (header_of-bytes m ok) (rw plain_op (refl, refl))
