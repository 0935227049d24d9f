-- ===== src/Socket/Datagram/RoundTrip.antt =====
-- A packet in a datagram.
use dropbox_ufrgs_sisop.Prelude.{
  ◌+◌, ◌≡◌, ◌++◌, ◌∙◌, some, length, drop, refl, [], ap, sym, append_assoc, subst,
  drop-length-append,
}
use dropbox_ufrgs_sisop.Prelude.Int.{ℤ}
use dropbox_ufrgs_sisop.Prelude.Outcome.{done}
use dropbox_ufrgs_sisop.Bytes.{Bytes}
use dropbox_ufrgs_sisop.Os.{Os}
use dropbox_ufrgs_sisop.Packet.{Packet, IsPacket, header, of_header, header_size}
use dropbox_ufrgs_sisop.Packet.Header.{length-header, of_header-header, copy_bytes-append}
use dropbox_ufrgs_sisop.Socket.Datagram.{udp_recv, udp_max_msg, of_datagram, with_payload}

-- Only the header bytes count.
of_header-append :
    (padding : Bytes) (p : Packet) (rest : Bytes)
    → of_header (header padding p ++ rest) [] ≡ of_header (header padding p) []
unfolding of_header header
of_header-append padding p rest = refl

drop-header :
    (padding : Bytes) (p : Packet) (rest : Bytes)
    → length padding ≡ 4
    → drop header_size (header padding p ++ rest) ≡ rest
drop-header padding p rest four =
    subst (λ n. drop n (header padding p ++ rest) ≡ rest) (length-header padding p four)
      (drop-length-append (header padding p) rest)

pub of_datagram-header :
    (padding : Bytes) (p : Packet) (rest : Bytes)
    → IsPacket p
    → length padding ≡ 4
    → of_datagram (header padding p ++ (p.payload ++ rest)) ≡ some p
of_datagram-header padding p rest v four =
    ap (λ d. with_payload d (drop header_size (header padding p ++ (p.payload ++ rest))))
      (of_header-append padding p (p.payload ++ rest) ∙ of_header-header padding p [] v)
    ∙ ap (with_payload (record p { payload = [] })) (drop-header padding p (p.payload ++ rest) four)
    ∙ rw (copy_bytes-append p.length p.payload rest (sym v.owns), with_payload) refl

of_datagram-append :
    (padding : Bytes) (p : Packet) (rest : Bytes)
    → IsPacket p
    → length padding ≡ 4
    → of_datagram ((header padding p ++ p.payload) ++ rest) ≡ some p
of_datagram-append padding p rest v four =
    ap of_datagram (append_assoc (header padding p) p.payload rest)
    ∙ of_datagram-header padding p rest v four

module _ (os : Os) (fd : ℤ) (padding : Bytes) (p : Packet) (s t : os.State) (v : IsPacket p)
    (four : length padding ≡ 4) where
  -- A datagram that holds a packet is received as that packet.
  pub udp_recv-packet :
      os.recvfrom s fd (header_size + udp_max_msg) ≡ (header padding p ++ p.payload, t)
      → udp_recv os fd s ≡ done p t
  unfolding udp_recv
  udp_recv-packet arrived = rw arrived (rw (of_datagram-append padding p _ v four))
