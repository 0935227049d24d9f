-- ===== src/InternalRouter/Succession.antt =====
-- A server from its start to the start of its router: `main` of `server/main.cpp`, with the part of
-- `InternalRouter::start` in `server/comms/router/internal_router.cpp` that a backup runs. What `select`
-- finds in each round of the keepalive is an argument.
pub mod Context
pub mod Heir
use dropbox_ufrgs_sisop.Prelude.{
  ℕ, zero, suc, List, [], ◌∷◌, Bool, true, false, some, if◌then◌else◌, ◌%◌, ◌^◌,
}
use dropbox_ufrgs_sisop.Prelude.Int.{ℤ, pos, negsuc, add_ℕ, is_negative, to_unsigned}
use dropbox_ufrgs_sisop.Prelude.Outcome.{done, exited, fault, no_fuel, M, bind, ◌>>=◌, ◌>>◌, return}
use dropbox_ufrgs_sisop.Bytes.{Bytes, bytes_eq}
use dropbox_ufrgs_sisop.Os.{Os}
use dropbox_ufrgs_sisop.Socket.Server.{ServerSocket, new_server_socket, bind_and_listen}
use dropbox_ufrgs_sisop.Router.Handshake.{handshake}
use dropbox_ufrgs_sisop.InternalRouter.Vote.{Voter}
use dropbox_ufrgs_sisop.InternalRouter.Vote.Start.{context_of, succeed, internal_port}
use dropbox_ufrgs_sisop.InternalRouter.Backup.{Follower, keepalive_round}
use dropbox_ufrgs_sisop.InternalRouter.Member.{
  Arguments, BackupClientSocket, Member, arguments, new_backup_client_socket, join_servers,
}

-- `new InternalRouter(&internal_socket, client_soc)`, with what the setters put into it. It knows no
-- user.
unfoldable pub new_internal_router : Member → Follower
new_internal_router m = record {
  users = [];
  adjacent = m.adjacent;
  client_socket = m.client_socket.socket;
  half_timeout = false;
  ended = false;
}

-- The same object, as the vote looks at it, under the id `id`.
abbrev pub voter_of : ℕ → Member → Follower → Voter
voter_of id m r = record {
  id = id;
  is_master = false;
  relaunch = false;
  adjacent = r.adjacent;
  client_socket = r.client_socket;
  server = m.client_socket.server;
}

-- `MASTER_SOCKET_QUEUE_SIZE`
abbrev pub queue_size : ℤ
queue_size = pos 5

module _ (os : Os) where
  -- `InternalRouter::keepalive`: rounds until the flag `timeout_b`. Where `select` is asked more often
  -- than there are answers, the loop goes on.
  unfoldable pub keepalive : ℕ → List Bool → Follower → M os.State Follower
  keepalive fuel [] r s = if r.ended then done r s else no_fuel
  keepalive fuel (found ∷ polls) r s = elim r.ended [
    | true ↦ done r s
    | false ↦ bind (keepalive_round os fuel found r s) (λ t u. keepalive fuel polls t u)
  ]

  -- What follows the keepalive. Without a neighbour the id is not looked at; otherwise it needs a
  -- value, and ids are numbers from 0 on.
  unfoldable pub after_keepalive : ℕ → ℕ → ServerSocket → Member → Follower → M os.State Voter
  after_keepalive rounds fuel server_socket m r = elim m.id [
    | some (pos id) ↦ succeed os rounds fuel m.external_ip server_socket (voter_of id m r)
    | _ ↦
        if bytes_eq r.adjacent.server_ip []
        then return (record (voter_of 0 m r) { is_master = true })
        else (λ s. fault)
  ]

  -- `InternalRouter::start` of a backup. Its loop has one round, since the vote ends with one of the
  -- flags set. The result is the context and the object.
  unfoldable pub start : ℕ → ℕ → List Bool → ServerSocket → Member → M os.State (List Bytes × Voter)
  start rounds fuel polls server_socket m = do
    r ← keepalive fuel polls (new_internal_router m)
    v ← after_keepalive rounds fuel server_socket m r
    return (context_of r.users, v)

  -- The loop of `main` in a backup, with fuel for the masters that it follows one after the other. It
  -- is left with the context of a new master.
  unfoldable pub follow_masters :
      ℕ
      → ℕ
      → ℕ
      → (ℕ → List Bool)
      → Bytes
      → ℤ
      → ServerSocket
      → BackupClientSocket
      → M os.State (List Bytes)
  follow_masters zero rounds fuel polls my_ip port server_socket client_soc s = no_fuel
  follow_masters (suc masters) rounds fuel polls my_ip port server_socket client_soc s =
      bind (join_servers os fuel my_ip port client_soc s) (λ m t.
        bind (start rounds fuel (polls masters) server_socket m t) (λ r u. elim r.1.relaunch [
          | false ↦ done r.0 u
          | true ↦
              follow_masters masters rounds fuel polls my_ip port server_socket
                (record { socket = r.1.client_socket; server = r.1.server }) u
        ]))

  -- The context with which `main` starts the router: empty for a master.
  unfoldable pub context_of_role :
      ℕ → ℕ → ℕ → (ℕ → List Bool) → Arguments → ServerSocket → M os.State (List Bytes)
  context_of_role masters rounds fuel polls a internal_socket =
      if a.is_backup
      then (do
        client_soc ← new_backup_client_socket os a.master_ip (internal_port a.master_port)
        follow_masters masters rounds fuel polls a.my_ip a.port internal_socket client_soc)
      else return []

  -- The start of `Router::start`; the flag says that it goes on to route.
  unfoldable pub start_router : ServerSocket → List Bytes → M os.State Bool
  start_router master_socket context = do
    err ← bind_and_listen os master_socket
    if is_negative err
        then return false
        else (do handshake os (to_unsigned 32 master_socket.port % 2 ^ 16) context; return true)

  -- `main`, up to the loop of the router
  unfoldable pub main : ℕ → ℕ → ℕ → (ℕ → List Bool) → List Bytes → M os.State Bool
  main masters rounds fuel polls argv = do
    a ← arguments argv
    master_socket ← new_server_socket os a.port queue_size
    internal_socket ← new_server_socket os (internal_port a.port) queue_size
    err ← bind_and_listen os internal_socket
    if is_negative err then (λ s. exited s) else (do
      context ← context_of_role masters rounds fuel polls a internal_socket
      start_router master_socket context)
