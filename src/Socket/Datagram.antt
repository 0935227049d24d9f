-- ===== src/Socket/Datagram.antt =====
-- `Socket::udp_client`, `Socket::udp_server`, `Socket::udp_send` and `Socket::udp_recv` of
-- `commons/socket/socket.cpp`: one packet in one datagram. None of them looks at the result of its
-- call, so a descriptor may be -1, and a datagram that did not arrive leaves memory that nothing has
-- written.
pub mod RoundTrip
use dropbox_ufrgs_sisop.Prelude.{none, some, Option, ℕ, ◌+◌, ◌++◌, drop, [], Option}
use dropbox_ufrgs_sisop.Prelude.Int.{ℤ, pos}
use dropbox_ufrgs_sisop.Prelude.Outcome.{done, M, or_fault, ◌>>=◌, return}
use dropbox_ufrgs_sisop.Bytes.{Bytes}
use dropbox_ufrgs_sisop.Os.{Os}
use dropbox_ufrgs_sisop.Packet.{Packet, header, of_header, header_size, copy_bytes}
use dropbox_ufrgs_sisop.Socket.{patch}

-- `UDP_IN_PORT`, `UDP_MAX_MSG`
abbrev pub udp_in_port : ℕ
udp_in_port = 20120

abbrev pub udp_max_msg : ℕ
udp_max_msg = 512

-- A packet whose payload is copied from a block. A length beyond that of the block reads past it.
abbrev pub with_payload : Packet → Bytes → Option Packet
with_payload p block = elim (copy_bytes p.length block) [
  | none ↦ none
  | some payload ↦ some (record p { payload = payload })
]

-- The packet in a buffer.
abbrev pub of_datagram : Bytes → Option Packet
of_datagram buff = with_payload (of_header buff []) (drop header_size buff)

module _ (os : Os) where
  -- `Socket::udp_client`, and its descriptor
  unfoldable pub udp_client : M os.State ℤ
  udp_client s = let (fd, t) = os.socket_udp s in done fd t

  -- `Socket::udp_server`
  unfoldable pub udp_server : M os.State ℤ
  udp_server s =
      let (fd, t) = os.socket_udp s in let (_, u) = os.bind_port t fd (pos udp_in_port) in done fd u

  -- `Socket::udp_send`, to an address
  unfoldable pub udp_send : ℤ → Packet → Bytes → M os.State (Unit {0})
  udp_send fd p addr = do
    payload ← or_fault (copy_bytes p.length p.payload)
    λ s. done tt (os.sendto s fd (header (os.garbage s 4) p ++ payload) addr)

  -- `Socket::udp_recv`
  unfoldable pub udp_recv : ℤ → M os.State Packet
  udp_recv fd = do
    buff ← λ s.
        let (bs, t) = os.recvfrom s fd (header_size + udp_max_msg) in
        done (patch (os.garbage s (header_size + udp_max_msg)) 0 bs) t
    or_fault (of_datagram buff)
