-- ===== src/Socket/Server.antt =====
-- `server/comms/socket/server_socket.cpp`: a socket that listens. A failed call of `socket` is only
-- logged, so the descriptor may be -1.
use dropbox_ufrgs_sisop.Prelude.{ℕ, Bool, false, replicate, if◌then◌else◌}
use dropbox_ufrgs_sisop.Prelude.Int.{ℤ, pos, negsuc, is_negative}
use dropbox_ufrgs_sisop.Prelude.Outcome.{done, raised, connect_error, M}
use dropbox_ufrgs_sisop.Os.{Os}
use dropbox_ufrgs_sisop.Packet.{header_size}
use dropbox_ufrgs_sisop.Socket.{Socket}

-- What a listening `ServerSocket` keeps.
pub record ServerSocket : Type 0 where
  pub sockfd : ℤ
  pub queue_size : ℤ
  pub port : ℤ
  pub is_waiting : Bool

module _ (os : Os) where
  -- `ServerSocket::ServerSocket(int port, int queue_size)`
  unfoldable pub new_server_socket : ℤ → ℤ → M os.State ServerSocket
  new_server_socket port queue_size s =
      let (fd, t) = os.socket s in
      done
        (record {
          sockfd = fd;
          queue_size = if is_negative queue_size then pos 1 else queue_size;
          port = if is_negative port then pos 8080 else port;
          is_waiting = false;
        })
        t

  -- `ServerSocket::ServerSocket(int sockfd)`
  abbrev pub slave_socket : ℕ → Socket
  slave_socket fd = record {
    sockfd = fd;
    port = pos 0;
    is_waiting = false;
    buffer = replicate header_size 0;
  }

  -- `ServerSocket::bind_and_listen`
  unfoldable pub bind_and_listen : ServerSocket → M os.State ℤ
  bind_and_listen soc s =
      let (bind_result, t) = os.bind_port s soc.sockfd soc.port in
      if is_negative bind_result
      then done bind_result t
      else (let (r, u) = os.listen t soc.sockfd soc.queue_size in done r u)

  -- `ServerSocket::accept_connection`
  unfoldable pub accept_connection : ServerSocket → M os.State Socket
  accept_connection soc s =
      let (newsockfd, t) = os.accept s soc.sockfd in
      elim newsockfd [ negsuc _ ↦ raised connect_error t | pos fd ↦ done (slave_socket fd) t ]
