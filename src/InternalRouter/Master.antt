-- ===== src/InternalRouter/Master.antt =====
-- The side of the master in `server/comms/router/internal_router.cpp`: the loop of
-- `InternalRouter::start` that takes backups in, and `InternalRouter::handle_connection`, the thread of
-- one backup. A thread refers to its backup by its place in `others`; that a later backup may move the
-- elements in memory is not modelled.
pub mod Second
use dropbox_ufrgs_sisop.Prelude.{
  ℕ, ◌-◌, ◌++◌, ◌∷◌, [], List, true, none, some, length, get_elem?, set, ltb, if◌then◌else◌,
}
use dropbox_ufrgs_sisop.Prelude.Int.{to_int, ℤ}
use dropbox_ufrgs_sisop.Prelude.Outcome.{
  done, exited, fault, M, within, bind, or_fault, ◌>>=◌, ◌>>◌, return,
}
use dropbox_ufrgs_sisop.Bytes.{Bytes, c_string, of_le}
use dropbox_ufrgs_sisop.Text.{find, before, after}
use dropbox_ufrgs_sisop.Text.Numbers.{stoi}
use dropbox_ufrgs_sisop.Os.{Os}
use dropbox_ufrgs_sisop.PacketType.{code, of_code, join_req, your_id_resp, server_keepalive}
use dropbox_ufrgs_sisop.Packet.{Packet, build_packet, header_size}
use dropbox_ufrgs_sisop.Socket.{copy, read_packet, write_packet}
use dropbox_ufrgs_sisop.Socket.Server.{ServerSocket, accept_connection}
use dropbox_ufrgs_sisop.InternalRouter.Broadcast.{Peer}

-- What the threads of the internal router of a master share.
pub record Master (os : Os) : Type 0 where
  pub state : os.State
  pub others : List Peer

-- The id and the address for a backup that joins.
unfoldable pub your_id_packet : ℕ → Bytes → Packet
your_id_packet id server_ip = build_packet (code your_id_resp) 0 id server_ip

-- `packet r`
unfoldable pub keepalive_answer : Packet
keepalive_answer = build_packet (code server_keepalive) 0 1 []

module _ (os : Os) where
  abbrev pub on_os : {A : Type 0} → M os.State A → M (Master os) A
  on_os = within (λ m. m.state) (λ s m. record m { state = s })

  -- A round of `while (routing)`. Its port has no value yet.
  unfoldable pub accept_backup : ServerSocket → M (Master os) (Unit {0})
  accept_backup server_socket = do
    slave_socket ← on_os (accept_connection os server_socket)
    λ m. done tt (record m {
      others =
          m.others
          ++ (record {
            server_ip = [];
            server_port = to_int (of_le (os.garbage m.state 4));
            socket = copy (os.garbage m.state header_size) slave_socket;
            flag = true;
          }
              ∷ []);
    })

  -- `in`, the backup of a thread
  abbrev pub peer : ℕ → M (Master os) Peer
  peer i m = elim (get_elem? m.others i) [ none ↦ fault | some p ↦ done p m ]

  -- The rest of the branch: the backup at `i` has an address, and is told its id. Where there is
  -- another backup, the texts for the two are read from strings that are gone.
  unfoldable pub take_in : ℕ → Bytes → ℤ → M (Master os) (Unit {0})
  take_in i ip port = do
    joining ← peer i
    λ m. done tt (record m {
      others = set m.others i (record joining { server_ip = ip; server_port = port });
    })
    _ ← λ m.
        if ltb 1 (length m.others)
        then fault
        else bind (peer (length m.others - 1) m)
            (λ last. on_os (write_packet os last.socket (your_id_packet (length m.others - 1) ip)))
    return tt

  -- `std::stoi(port_str)`, which throws where there is no number, and nothing catches that
  abbrev pub port_in : Bytes → M (Master os) ℤ
  port_in ip_port m = elim (stoi (after (find b':' ip_port) ip_port)) [
    | none ↦ exited m
    | some port ↦ done port m
  ]

  -- `case JOIN_REQ`
  unfoldable pub join_request : ℕ → Packet → M (Master os) (Unit {0})
  join_request i p = do
    ip_port_str ← or_fault (c_string p.payload)
    port ← port_in ip_port_str
    take_in i (before (find b':' ip_port_str) ip_port_str) port

  -- `case SERVER_KEEPALIVE`
  unfoldable pub answer_keepalive : ℕ → M (Master os) (Unit {0})
  answer_keepalive i = do
    follower ← peer i
    _ ← on_os (write_packet os follower.socket keepalive_answer)
    return tt

  -- `switch (p.type)`
  unfoldable pub handle_backup : ℕ → Packet → M (Master os) (Unit {0})
  handle_backup i p = elim (of_code p.type) [
    | some join_req ↦ join_request i p
    | some server_keepalive ↦ answer_keepalive i
    | _ ↦ return tt
  ]

  -- A round of `while (in.flag)`
  unfoldable pub backup_round : ℕ → ℕ → M (Master os) (Unit {0})
  backup_round fuel i = do
    follower ← peer i
    received ← on_os (read_packet os fuel follower.socket)
    λ m. done tt (record m { others = set m.others i (record follower { socket = received.1 }) })
    handle_backup i received.0
