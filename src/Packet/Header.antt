-- ===== src/Packet/Header.antt =====
-- The header of a packet, written to memory and read back.
use dropbox_ufrgs_sisop.Prelude.{
  [], ap, append-nil, arith, length, some, sym, take, take-length-append, ◌∙◌, ◌≡◌, ℕ, ◌++◌,
  length-append,
}
use dropbox_ufrgs_sisop.Bytes.{Bytes, of_le-le_bytes}
use dropbox_ufrgs_sisop.Packet.{
  copy_bytes, Packet, IsPacket, header, of_header, header_size, build_packet_sized,
}

pub length-header :
    (padding : Bytes) (p : Packet) → length padding ≡ 4 → length (header padding p) ≡ header_size
unfolding header
length-header padding p h = omega arith

-- A header read back gives the fields that were written, whatever the padding holds.
pub of_header-header :
    (padding : Bytes) (p : Packet) (payload : Bytes)
    → IsPacket p
    → of_header (header padding p) payload ≡ record p { payload = payload }
unfolding of_header header
of_header-header padding p payload v = λ i. record {
  type = of_le-le_bytes 2 p.type v.type_fits i;
  seqn = of_le-le_bytes 2 p.seqn v.seqn_fits i;
  total_size = of_le-le_bytes 4 p.total_size v.total_size_fits i;
  length = of_le-le_bytes 4 p.length v.length_fits i;
  payload = payload;
}

pub copy_bytes-append :
    (n : ℕ) (bs rest : Bytes) → n ≡ length bs → copy_bytes n (bs ++ rest) ≡ some bs
unfolding copy_bytes
copy_bytes-append n bs rest h =
    ground
      (arith, length-append bs rest, ap (λ k. take k (bs ++ rest)) h ∙ take-length-append bs rest)

pub copy_bytes_self : (n : ℕ) (bs : Bytes) → n ≡ length bs → copy_bytes n bs ≡ some bs
copy_bytes_self n bs h = ap (copy_bytes n) (sym (append-nil bs)) ∙ copy_bytes-append n bs [] h

-- A packet built from all of a block owns that block.
pub build_packet_sized_self :
    (type seqn total_size size : ℕ) (payload : Bytes)
    → size ≡ length payload
    → build_packet_sized type seqn total_size size payload
      ≡ some (record {
        type = type;
        seqn = seqn;
        total_size = total_size;
        length = size;
        payload = payload;
      })
unfolding build_packet_sized
build_packet_sized_self type seqn total_size size payload h =
    rw (copy_bytes_self size payload h, build_packet_sized)
