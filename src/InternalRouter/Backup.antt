-- ===== src/InternalRouter/Backup.antt =====
-- A backup that follows its master: `InternalRouter::keepalive` of
-- `server/comms/router/internal_router.cpp`, one round of its loop at a time. What `select` finds is
-- an argument of a round.
pub mod Replication
pub mod Watch
use dropbox_ufrgs_sisop.Prelude.{
  ℕ, ◌++◌, ◌∷◌, [], List, Bool, true, false, none, some, if◌then◌else◌, ltb,
}
use dropbox_ufrgs_sisop.Prelude.Int.{ℤ, pos}
use dropbox_ufrgs_sisop.Prelude.Outcome.{
  Outcome, done, exited, fault, M, bind, ◌>>=◌, ◌>>◌, return, catch, or_fault,
}
use dropbox_ufrgs_sisop.Bytes.{Bytes, c_string, bytes_eq, bytes_lt}
use dropbox_ufrgs_sisop.Text.{find, before, after, text}
use dropbox_ufrgs_sisop.Text.Numbers.{stoi}
use dropbox_ufrgs_sisop.Os.{Os}
use dropbox_ufrgs_sisop.PacketType.{
  code, of_code, upload_req, delete_req, login_req, signed_packet, server_keepalive, join_resp,
}
use dropbox_ufrgs_sisop.Packet.{Packet, copy_bytes, build_packet}
use dropbox_ufrgs_sisop.Socket.{Socket, patch, read_packet, write_packet}
use dropbox_ufrgs_sisop.File.{from_data, deserialize}
use dropbox_ufrgs_sisop.FileManager.{create_directory}
use dropbox_ufrgs_sisop.Controllers.{upload, delete_file}
use dropbox_ufrgs_sisop.InternalRouter.Signature.{SignedPayload, extract_signature}
use dropbox_ufrgs_sisop.InternalRouter.Vote.{Address}

-- What the loop reads and writes: `users` of the `InternalRouter`, its `adjacent` and
-- `client_socket`, and the local `half_timeout`. `ended` says that the loop is left.
pub record Follower : Type 0 where
  pub users : List (Bytes × List Bytes)
  pub adjacent : Address
  pub client_socket : Socket
  pub half_timeout : Bool
  pub ended : Bool

-- `sizeof(sockaddr_in)`
abbrev pub address_size : ℕ
address_size = 16

-- `users.insert`, or `push_back` where the map has the key
unfoldable pub add_address : Bytes → Bytes → List (Bytes × List Bytes) → List (Bytes × List Bytes)
add_address name addr [] = (name, addr ∷ []) ∷ []
add_address name addr ((key, addrs) ∷ users) =
    if bytes_eq name key
    then (key, addrs ++ (addr ∷ [])) ∷ users
    else if bytes_lt name key
    then (name, addr ∷ []) ∷ (key, addrs) ∷ users
    else (key, addrs) ∷ add_address name addr users

-- `packet p` of `keepalive`
unfoldable pub keepalive_packet : Packet
keepalive_packet = build_packet (code server_keepalive) 0 1 []

module _ (os : Os) where
  -- `case UPLOAD_REQ`
  unfoldable pub replay_upload : Packet → Bytes → M os.State (Unit {0})
  replay_upload p username = do
    serialized_file ← or_fault (from_data p.payload)
    file ← or_fault (deserialize serialized_file)
    _ ← upload os file username
    return tt

  -- `case DELETE_REQ`
  unfoldable pub replay_delete : Packet → Bytes → M os.State (Unit {0})
  replay_delete p username = do
    filename ← or_fault (c_string p.payload)
    _ ← delete_file os filename username
    return tt

  -- `case LOGIN_REQ`; a payload that is longer than the address overruns it
  unfoldable pub replay_login : Packet → Bytes → Follower → M os.State Follower
  replay_login p username r = do
    bytes ← or_fault (copy_bytes p.length p.payload)
    addr ← λ s.
        if ltb address_size p.length
        then fault
        else done (patch (os.garbage s address_size) 0 bytes) s
    _ ← create_directory os (text "./sync_directories/sync_dir_") username
    return (record r { users = add_address username addr r.users })

  -- `case SIGNED_PACKET`
  unfoldable pub replay : SignedPayload → Follower → M os.State Follower
  replay sr r = do
    username ← or_fault (c_string sr.username)
    elim (of_code sr.p.type) [
      | some upload_req ↦ (do replay_upload sr.p username; return r)
      | some delete_req ↦ (do replay_delete sr.p username; return r)
      | some login_req ↦ replay_login sr.p username r
      | _ ↦ return r
    ]

  -- `case JOIN_RESP`. A port that is no number makes `std::stoi` throw, and nothing catches that.
  unfoldable pub join : Packet → Follower → M os.State Follower
  join p r = do
    ip_port ← or_fault (c_string p.payload)
    λ s. elim (stoi (after (find b':' ip_port) ip_port)) [
      | none ↦ exited s
      | some port ↦
          done
            (record r {
              adjacent = record {
                server_ip = before (find b':' ip_port) ip_port;
                server_port = port;
              };
            })
            s
    ]

  -- `switch (r.type)`
  unfoldable pub receive : Packet → Follower → M os.State Follower
  receive p r = elim (of_code p.type) [
    | some signed_packet ↦ (do sr ← or_fault (extract_signature p); replay sr r)
    | some join_resp ↦ join p r
    | _ ↦ return r
  ]

  -- A round in which `select` finds a packet. An error of the socket ends the loop.
  unfoldable pub readable_round : ℕ → Follower → M os.State Follower
  readable_round fuel r =
      catch
        (do
          received ← read_packet os fuel r.client_socket
          receive received.0 (record r { half_timeout = false; client_socket = received.1 }))
        (λ _. return (record r { half_timeout = false; ended = true }))

  -- A round in which `select` finds nothing in time: the first asks the master for a sign of life, the
  -- second ends the loop, and so does an error.
  unfoldable pub silent_round : Follower → M os.State Follower
  silent_round r =
      if r.half_timeout
      then return (record r { ended = true })
      else catch
          (do
            _ ← write_packet os r.client_socket keepalive_packet
            return (record r { half_timeout = true }))
          (λ _. return (record r { half_timeout = true; ended = true }))

  -- One round of the loop.
  unfoldable pub keepalive_round : ℕ → Bool → Follower → M os.State Follower
  keepalive_round fuel found r = if found then readable_round fuel r else silent_round r
