-- ===== src/Packet.antt =====
-- `commons/packet.hpp`, `commons/packet.cpp`: the packet, its header in memory, and the two ways to
-- build one (`Socket::build_packet`, `Socket::build_packet_sized` of `commons/socket/socket.cpp`).
pub mod Header
use dropbox_ufrgs_sisop.Prelude.{
  ℕ, ◌+◌, ◌≡◌, ◌<◌, ◌^◌, ◌%◌, [], ◌++◌, ◌∷◌, Option, none, some, length, take, drop, leb,
  if◌then◌else◌,
}
use dropbox_ufrgs_sisop.Bytes.{Bytes, le_bytes, of_le}

-- `payload` is the block that `_payload` points to; it is empty where the pointer is NULL.
pub record Packet : Type 0 where
  pub type : ℕ
  pub seqn : ℕ
  pub total_size : ℕ
  pub length : ℕ
  pub payload : Bytes

-- `packet::packet()`
abbrev pub empty_packet : Packet
empty_packet = record { type = 50; seqn = 0; total_size = 0; length = 0; payload = [] }

-- The fields fit their types and the block holds `length` bytes.
pub record IsPacket (p : Packet) : Type 0 where
  pub type_fits : p.type < 2 ^ 16
  pub seqn_fits : p.seqn < 2 ^ 16
  pub total_size_fits : p.total_size < 2 ^ 32
  pub length_fits : p.length < 2 ^ 32
  pub owns : length p.payload ≡ p.length

-- `sizeof(packet) - sizeof(char*)` on x86-64: 12 bytes of fields and 4 of padding.
abbrev pub header_size : ℕ
header_size = 16

-- The first HEADER_SIZE bytes of the struct. `padding` is what its padding bytes hold.
unfoldable pub header : Bytes → Packet → Bytes
header padding p =
    le_bytes 2 p.type
    ++ (le_bytes 2 p.seqn ++ (le_bytes 4 p.total_size ++ (le_bytes 4 p.length ++ padding)))

-- `memcpy((char *)&p, bytes, HEADER_SIZE)`, then the payload.
unfoldable pub of_header : Bytes → Bytes → Packet
of_header bytes payload = record {
  type = of_le (take 2 bytes);
  seqn = of_le (take 2 (drop 2 bytes));
  total_size = of_le (take 4 (drop 4 bytes));
  length = of_le (take 4 (drop 8 bytes));
  payload = payload;
}

-- `memcpy(_, from, n)`. To read past the end of the block is undefined.
unfoldable pub copy_bytes : ℕ → Bytes → Option Bytes
copy_bytes n from = if leb n (length from) then some (take n from) else none

-- `Socket::build_packet_sized`
unfoldable pub build_packet_sized : ℕ → ℕ → ℕ → ℕ → Bytes → Option Packet
unfolding copy_bytes
build_packet_sized type seqn total_size size payload = elim (copy_bytes size payload) [
  | none ↦ none
  | some block ↦
      some (record {
        type = type;
        seqn = seqn;
        total_size = total_size;
        length = size;
        payload = block;
      })
]

-- `Socket::build_packet`, on the characters of a C string: its end is copied too.
unfoldable pub build_packet : ℕ → ℕ → ℕ → Bytes → Packet
build_packet type seqn total_size text = record {
  type = type;
  seqn = seqn;
  total_size = total_size;
  length = length text + 1;
  payload = text ++ (0 ∷ []);
}
