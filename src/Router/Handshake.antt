-- ===== src/Router/Handshake.antt =====
-- The start of `Router::start` in `server/comms/router/router.cpp`: a new master tells the clients of
-- the former one where it is. The address that it sends is that of its listening socket, which
-- `ServerSocket` binds to INADDR_ANY.
use dropbox_ufrgs_sisop.Prelude.{ℕ, List, [], ◌∷◌, ◌++◌}
use dropbox_ufrgs_sisop.Prelude.Int.{ℤ, pos, negsuc}
use dropbox_ufrgs_sisop.Prelude.Outcome.{done, M, ◌>>=◌, ◌>>◌, return}
use dropbox_ufrgs_sisop.Bytes.{Bytes}
use dropbox_ufrgs_sisop.Text.{text}
use dropbox_ufrgs_sisop.Text.Numbers.{to_string}
use dropbox_ufrgs_sisop.Os.{Os}
use dropbox_ufrgs_sisop.PacketType.{code, server_handshake}
use dropbox_ufrgs_sisop.Packet.{Packet, build_packet}
use dropbox_ufrgs_sisop.Socket.Datagram.{udp_client, udp_send}

-- What `inet_ntop` makes of INADDR_ANY
abbrev pub any_address : Bytes
any_address = text "0.0.0.0"

-- The text for the clients, from the port of the listening socket, which fits an `uint16_t`
abbrev pub ip_port : ℕ → Bytes
ip_port port = any_address ++ (b':' ∷ to_string (pos port))

-- `p_hs`
unfoldable pub handshake_packet : ℕ → Packet
handshake_packet port = build_packet (code server_handshake) 0 1 (ip_port port)

module _ (os : Os) where
  -- `for(sockaddr_in addr : *context)`
  unfoldable pub send_handshakes : ℤ → ℕ → List Bytes → M os.State (Unit {0})
  send_handshakes fd port [] = return tt
  send_handshakes fd port (addr ∷ context) = do
    udp_send os fd (handshake_packet port) addr
    send_handshakes fd port context

  -- The socket, the loop, and `udp_sock.close_connection()`, which does nothing to a descriptor of -1
  unfoldable pub handshake : ℕ → List Bytes → M os.State (Unit {0})
  handshake port context = do
    fd ← udp_client os
    send_handshakes fd port context
    λ s. elim fd [ pos n ↦ done tt (os.close s n) | negsuc _ ↦ done tt s ]
