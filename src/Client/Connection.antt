-- ===== src/Client/Connection.antt =====
-- `client/frontend/socket/client_socket.cpp`: the socket of a client, and the thread that waits for the
-- handshake of a new master. The host and the port that the socket is set up for are `serv_addr`.
use dropbox_ufrgs_sisop.Prelude.{ℕ, if◌then◌else◌, replicate, false, true, Bool}
use dropbox_ufrgs_sisop.Prelude.Int.{ℤ, pos, negsuc, is_negative}
use dropbox_ufrgs_sisop.Prelude.Outcome.{
  done, raised, fault, bind_error, connect_error, M, or_fault, ◌>>=◌, ◌>>◌, return,
}
use dropbox_ufrgs_sisop.Bytes.{Bytes}
use dropbox_ufrgs_sisop.Client.Handshake.{new_master}
use dropbox_ufrgs_sisop.Os.{Os}
use dropbox_ufrgs_sisop.PacketType.{code, login_req}
use dropbox_ufrgs_sisop.Packet.{Packet, build_packet, header_size}
use dropbox_ufrgs_sisop.Socket.{Socket, write_packet}
use dropbox_ufrgs_sisop.Socket.Datagram.{udp_server, udp_recv}

-- A `ClientSocket`, without the list of backups, which nothing reads.
pub record ClientSocket : Type 0 where
  pub socket : Socket
  pub server_address : Bytes
  pub server_port : ℤ

module _ (os : Os) where
  -- `socket(AF_INET, SOCK_STREAM, 0)`, where -1 is an error
  abbrev pub open_stream : M os.State ℕ
  open_stream s =
      let (fd, t) = os.socket s in elim fd [ negsuc _ ↦ raised bind_error t | pos n ↦ done n t ]

  -- `*((struct in_addr *)server->h_addr)`, where `gethostbyname` gives NULL for an unknown host
  abbrev pub known_host : Bytes → M os.State (Unit {0})
  known_host server_address s = if os.resolves s server_address then done tt s else fault

  -- `ClientSocket::ClientSocket`
  unfoldable pub new_client_socket : Bytes → ℤ → M os.State ClientSocket
  new_client_socket server_address server_port = do
    fd ← open_stream
    known_host server_address
    return (record {
      socket = record {
        sockfd = fd;
        port = server_port;
        is_waiting = false;
        buffer = replicate header_size 0;
      };
      server_address = server_address;
      server_port = server_port;
    })

  -- `ClientSocket::connect_to_server`
  unfoldable pub connect_to_server : ClientSocket → M os.State (Unit {0})
  connect_to_server c s =
      let (err, t) = os.connect s c.socket.sockfd c.server_address c.server_port in
      if is_negative err then raised connect_error t else done tt t

  -- What the thread does with the handshake: the socket is set up for the new master, keeping the old
  -- buffer, and logs in again. The last step sets the flag for the main loop.
  unfoldable pub reconnect : Bytes → Packet → ClientSocket → M os.State (ClientSocket × Bool)
  reconnect username p_res self = do
    address ← or_fault (new_master p_res)
    fd ← open_stream
    known_host address.0
    let c : ClientSocket = record {
      socket = record self.socket { sockfd = fd; port = address.1 };
      server_address = address.0;
      server_port = address.1;
    }
    connect_to_server c
    _ ← write_packet os c.socket (build_packet (code login_req) 0 1 username)
    return (c, true)

  -- `ClientSocket::udp_listener`
  unfoldable pub udp_listener : Bytes → ClientSocket → M os.State (ClientSocket × Bool)
  udp_listener username self = do
    fd ← udp_server os
    p_res ← udp_recv os fd
    reconnect username p_res self
