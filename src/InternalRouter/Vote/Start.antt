-- ===== src/InternalRouter/Vote/Start.antt =====
-- `InternalRouter::start` of a backup whose master has fallen silent, in
-- `server/comms/router/internal_router.cpp`: a backup without a neighbour is the master, and any other
-- connects to its neighbours and votes.
use dropbox_ufrgs_sisop.Prelude.{ℕ, zero, suc, ◌++◌, ◌∷◌, [], List, true, false, if◌then◌else◌}
use dropbox_ufrgs_sisop.Prelude.Int.{ℤ, pos, add_ℕ}
use dropbox_ufrgs_sisop.Prelude.Outcome.{
  done, raised, no_fuel, connect_error, M, bind, catch, ◌>>=◌, ◌>>◌, return,
}
use dropbox_ufrgs_sisop.Bytes.{Bytes, bytes_eq}
use dropbox_ufrgs_sisop.Text.Numbers.{to_string}
use dropbox_ufrgs_sisop.Os.{Os}
use dropbox_ufrgs_sisop.Packet.{Packet}
use dropbox_ufrgs_sisop.Socket.{Socket, read_packet, write_packet, close_connection}
use dropbox_ufrgs_sisop.Socket.Server.{ServerSocket, new_server_socket, accept_connection}
use dropbox_ufrgs_sisop.Prelude.Int.{is_negative}
use dropbox_ufrgs_sisop.InternalRouter.Vote.{Voter, my_vote, reset_connection, vote_step}

-- The addresses of the clients that the backup has heard of, in the order of the map.
unfoldable pub context_of : List (Bytes × List Bytes) → List Bytes
context_of [] = []
context_of ((_, addrs) ∷ users) = addrs ++ context_of users

-- The port of the internal router of a server that clients reach at `port`
abbrev pub internal_port : ℤ → ℤ
internal_port port = add_ℕ port 50

module _ (os : Os) where
  -- `self->client_socket->connect_to_server()`
  abbrev pub connect : Voter → M os.State (Unit {0})
  connect v s =
      let (err, t) = os.connect s v.client_socket.sockfd v.server.server_ip v.server.server_port in
      if is_negative err then raised connect_error t else done tt t

  -- The two connections to the neighbours. If the first order fails, the other order is tried.
  unfoldable pub meet_neighbours : ServerSocket → Voter → M os.State Socket
  meet_neighbours server_socket v =
      catch (do connect v; accept_connection os server_socket)
        (λ _. do neighbour ← accept_connection os server_socket; connect v; return neighbour)

  -- From the end of the keepalive to the loop of the vote, where there is a neighbour: the vote has
  -- the id and the address of this server and has been sent. The socket on port 8080 is not used.
  unfoldable pub enter_vote : Bytes → ServerSocket → Voter → M os.State (Voter × Socket × Packet)
  enter_vote external_ip server_socket v = do
    closed ← close_connection os v.client_socket
    w ←
        reset_connection os
          (record {
            server_ip = v.adjacent.server_ip;
            server_port = internal_port v.adjacent.server_port;
          })
          (record v { client_socket = closed })
    let mine = my_vote w.id (external_ip ++ (b':' ∷ to_string server_socket.port))
    _ ← new_server_socket os (pos 8080) (pos 2)
    neighbour ← meet_neighbours server_socket w
    _ ← write_packet os w.client_socket mine
    return (w, neighbour, mine)

  -- `while (voting)`, with fuel for its rounds and for the loops that read
  unfoldable pub vote_loop : ℕ → ℕ → Packet → Socket → Voter → M os.State Voter
  vote_loop zero fuel mine neighbour v s = no_fuel
  vote_loop (suc rounds) fuel mine neighbour v s = bind (read_packet os fuel neighbour s) (λ r t.
      bind (vote_step os mine v r.0 t)
        (λ w u. elim w.1 [ true ↦ vote_loop rounds fuel mine r.1 w.0 u | false ↦ done w.0 u ]))

  -- What follows when the thread that follows the master has ended.
  unfoldable pub succeed : ℕ → ℕ → Bytes → ServerSocket → Voter → M os.State Voter
  succeed rounds fuel external_ip server_socket v =
      if bytes_eq v.adjacent.server_ip [] then return (record v { is_master = true }) else (do
        entered ← enter_vote external_ip server_socket v
        let (w, neighbour, mine) = entered
        vote_loop rounds fuel mine neighbour w)
