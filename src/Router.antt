-- ===== src/Router.antt =====
-- `server/comms/router/router.cpp`: the router of a master, which takes logins. `Handoff` has the two
-- threads that share the master socket, and `Handshake` the start of a master after another.
pub mod Login
pub mod Handoff
pub mod Handshake
use dropbox_ufrgs_sisop.Prelude.Int.{is_negative}
use dropbox_ufrgs_sisop.Manager.Users.{add_user, add_connection}
use dropbox_ufrgs_sisop.InternalRouter.Broadcast.{broadcast_others}
use dropbox_ufrgs_sisop.Text.{before, find, after, text}
use dropbox_ufrgs_sisop.Manager.Requests.{defined}
use dropbox_ufrgs_sisop.Packet.{Packet, build_packet_sized, build_packet}
use dropbox_ufrgs_sisop.Bytes.{Bytes, c_string}
use dropbox_ufrgs_sisop.Manager.{Server, on_os, unlock, lock}
use dropbox_ufrgs_sisop.Socket.{Socket, write_packet}
use dropbox_ufrgs_sisop.Os.{Os}
use dropbox_ufrgs_sisop.Prelude.{
  ℕ, List, [], ◌∷◌, none, some, true, false, if◌then◌else◌, take, ◌++◌, drop,
}
use dropbox_ufrgs_sisop.PacketType.{login_req, of_code, code, login_refuse_resp, login_accept_resp}
use dropbox_ufrgs_sisop.Prelude.Outcome.{done, fault, M, ◌>>=◌, ◌>>◌, return}

-- `htons(UDP_IN_PORT)` in memory
abbrev pub udp_port_bytes : Bytes
udp_port_bytes = 78 ∷ 152 ∷ []

module _ (os : Os) where
  -- The `sockaddr_in` of a login: family, port, address and padding. `cli_addr` of the socket is never
  -- set, so its memory gives the family, the padding, and the address too where `inet_aton` cannot
  -- read one.
  unfoldable pub login_address : os.State → Bytes → Bytes
  login_address s ip =
      let cli_addr = os.garbage s 16 in
      take 2 cli_addr
      ++ (udp_port_bytes
          ++ (elim (os.inet_aton ip) [ none ↦ take 4 (drop 4 cli_addr) | some sin_addr ↦ sin_addr ]
              ++ drop 8 cli_addr))

  -- The refusal of a login. It leaves the branch by `break`, and the lock stays held.
  unfoldable pub refuse_login : Socket → M (Server os) (Unit {0})
  refuse_login slave_socket = do
    _ ← on_os os (
        write_packet os slave_socket
          (build_packet (code login_refuse_resp) 0 0 (text "Max connections reached")))
    return tt

  -- The rest of the branch: the backups hear of the login, and the client has its answer.
  unfoldable pub accept_login : Socket → Bytes → Bytes → M (Server os) (Unit {0})
  accept_login slave_socket username ip = do
    unlock os
    buff ← λ w. done (login_address w.state ip) w
    r ← defined os (build_packet_sized (code login_req) 0 1 16 buff)
    _ ← λ w. on_os os (broadcast_others os w.others r username) w
    _ ← on_os os (
        write_packet os slave_socket
          (build_packet (code login_accept_resp) 0 0 (text "Connection accepted")))
    return tt

  -- `case LOGIN_REQ` of `Router::start`
  unfoldable pub login : Socket → Packet → M (Server os) (Unit {0})
  login slave_socket p = do
    ip_port_str ← defined os (c_string p.payload)
    let username = before (find b':' ip_port_str) ip_port_str
    let ip = after (find b':' ip_port_str) ip_port_str
    lock os
    _ ← λ w. let (v, is_new_user) = add_user os username w in done is_new_user v
    err ← λ w. let (v, err) = add_connection os username slave_socket w in done err v
    if is_negative err then refuse_login slave_socket else accept_login slave_socket username ip

  -- The `switch` of `Router::start`, which knows one request.
  unfoldable pub route : Socket → Packet → M (Server os) (Unit {0})
  route slave_socket p = elim (of_code p.type) [
    | some login_req ↦ login slave_socket p
    | _ ↦ return tt
  ]
