-- ===== src/InternalRouter/Broadcast.antt =====
-- `InternalRouter::broadcast_others`: the master hands a packet that it has received to each backup.
use dropbox_ufrgs_sisop.InternalRouter.Signature.{sign_packet}
use dropbox_ufrgs_sisop.Socket.{Socket, write_packet}
use dropbox_ufrgs_sisop.Packet.{Packet}
use dropbox_ufrgs_sisop.Prelude.Int.{ℤ, pos}
use dropbox_ufrgs_sisop.Os.{Os}
use dropbox_ufrgs_sisop.Bytes.{Bytes}
use dropbox_ufrgs_sisop.Prelude.{ℕ, List, [], ◌∷◌, none, some, Bool}
use dropbox_ufrgs_sisop.Prelude.Outcome.{
  read_header_error, read_payload_error, write_error, connect_error, bind_error, blocked, exited,
  no_fuel, done, raised, fault, M, SocketError,
}

-- `server_ip_port_t`, as the master keeps it of a backup
pub record Peer : Type 0 where
  pub server_ip : Bytes
  pub server_port : ℤ
  pub socket : Socket
  pub flag : Bool

-- `enum SocketError`
abbrev pub error_code : SocketError → ℕ
error_code read_header_error = 1
error_code read_payload_error = 2
error_code write_error = 3
error_code connect_error = 4
error_code bind_error = 5

module _ (os : Os) where
  -- The loop over `others`; the first error ends it, and its number is the result.
  unfoldable pub send_others : List Peer → Packet → M os.State ℤ
  send_others [] sp s = done (pos 0) s
  send_others (other ∷ others) sp s = elim (write_packet os other.socket sp s) [
    | done _ t ↦ send_others others sp t
    | raised e t ↦ done (pos (error_code e)) t
    | blocked t ↦ blocked t
    | exited t ↦ exited t
    | fault ↦ fault
    | no_fuel ↦ no_fuel
  ]

  -- `InternalRouter::broadcast_others`
  unfoldable pub broadcast_others : List Peer → Packet → Bytes → M os.State ℤ
  broadcast_others others p user s = elim (sign_packet (os.garbage s 4) p user) [
    | none ↦ fault
    | some sp ↦ send_others others sp s
  ]
