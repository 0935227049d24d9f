-- ===== src/EndToEnd/Login.antt =====
-- A client that logs in at a master that has a backup.
use dropbox_ufrgs_sisop.Prelude.{
  ℕ, ◌≡◌, ◌+◌, ◌<◌, ◌^◌, [], ◌∷◌, some, refl, true, false, length, sym,
}
use dropbox_ufrgs_sisop.Prelude.Int.{ℤ, pos}
use dropbox_ufrgs_sisop.Prelude.Outcome.{done, bind, within}
use dropbox_ufrgs_sisop.Prelude.Outcome.Laws.{bind_step}
use dropbox_ufrgs_sisop.Bytes.{Bytes, NoNul, c_string}
use dropbox_ufrgs_sisop.Text.{before, after, find, text}
use dropbox_ufrgs_sisop.Os.{Os}
use dropbox_ufrgs_sisop.PacketType.{code, login_req, login_accept_resp}
use dropbox_ufrgs_sisop.Packet.{Packet, build_packet, build_packet_sized, header_size}
use dropbox_ufrgs_sisop.Packet.Header.{build_packet_sized_self}
use dropbox_ufrgs_sisop.Socket.{Socket, write_packet}
use dropbox_ufrgs_sisop.FileManager.{create_directory}
use dropbox_ufrgs_sisop.Manager.{Server, lock, unlock, on_os}
use dropbox_ufrgs_sisop.Manager.Requests.{defined}
use dropbox_ufrgs_sisop.Manager.Users.{add_user, add_connection}
use dropbox_ufrgs_sisop.InternalRouter.Broadcast.{Peer, broadcast_others, send_others}
use dropbox_ufrgs_sisop.InternalRouter.Signature.RoundTrip.{signed, sign_packet-IsPacket}
use dropbox_ufrgs_sisop.InternalRouter.Backup.{Follower, receive, add_address, address_size}
use dropbox_ufrgs_sisop.InternalRouter.Backup.Replication.{
  login_packet, login_packet-IsPacket, receive-login_packet,
}
use dropbox_ufrgs_sisop.Router.{login, accept_login, login_address}

abbrev pub acceptance : Packet
acceptance = build_packet (code login_accept_resp) 0 0 (text "Connection accepted")

module _ (master backup : Os) (slave : Socket) (username ip addr : Bytes)
    (sixteen : length addr ≡ address_size) (ends : NoNul username)
    (fits : header_size + address_size + length username + 1 < 2 ^ 32) where
  broadcast_others-login_packet :
      (p : Peer) (s t : master.State) (n : ℕ)
      → length (master.garbage s 4) ≡ 4
      → write_packet master p.socket (signed (master.garbage s 4) (login_packet addr) username) s
        ≡ done n t
      → broadcast_others master (p ∷ []) (login_packet addr) username s ≡ done (pos 0) t
  unfolding broadcast_others send_others
  broadcast_others-login_packet p s t n four wrote =
      rw
        (
          sign_packet-IsPacket (master.garbage s 4) (login_packet addr) username
              (login_packet-IsPacket addr sixteen) four fits,
          broadcast_others,
        )
        (rw (wrote, send_others) refl)

  accept_login-backup :
      (p : Peer) (w : Server master) (t u : master.State) (n k : ℕ)
      → w.others ≡ p ∷ []
      → login_address master w.state ip ≡ addr
      → length (master.garbage w.state 4) ≡ 4
      → write_packet master p.socket
          (signed (master.garbage w.state 4) (login_packet addr) username)
          w.state
        ≡ done n t
      → write_packet master slave acceptance t ≡ done k u
      → accept_login master slave username ip w ≡ done tt (record w { state = u; locked = false })
  unfolding accept_login unlock
  accept_login-backup p w t u n k alone named four wrote answered =
      let v : Server master = record w { locked = false } in
      let built : defined master
            (build_packet_sized (code login_req) 0 1 16 (login_address master w.state ip)) v
          ≡ done (login_packet addr) v =
        rw (named) (rw (build_packet_sized_self (code login_req) 0 1 16 addr (sym sixteen)) refl) in
      let told : on_os master (broadcast_others master w.others (login_packet addr) username) v
          ≡ done (pos 0) (record v { state = t }) =
        rw alone (rw (broadcast_others-login_packet p w.state t n four wrote, within) refl) in
      let answer : on_os master (write_packet master slave acceptance) (record v { state = t })
          ≡ done k (record v { state = u }) =
        rw (answered, within) refl in
      bind_step _ built (bind_step _ told (bind_step _ answer refl))

  -- The login of a client at a master with one backup, where the lock is free, the user has a free
  -- slot, and the packets can be written: the client is accepted, the lock is free again, and one
  -- packet goes to the backup; and a backup that gets this packet, and makes a directory for the
  -- user, notes the `sockaddr_in` that the master has built for the user, and is otherwise unchanged.
  -- That has its 16 bytes, the name has no NUL, and the packet for the backup is below 2 ^ 32 bytes.
  pub login_end_to_end :
      (q : Packet) (ip_port : Bytes) (p : Peer) (w v x : Server master) (is_new : ℤ)
      (t u : master.State) (n k e : ℕ) (r : Follower) (a b : backup.State) (made : ℤ)
      → c_string q.payload ≡ some ip_port
      → before (find b':' ip_port) ip_port ≡ username
      → after (find b':' ip_port) ip_port ≡ ip
      → w.locked ≡ false
      → add_user master username (record w { locked = true }) ≡ (v, is_new)
      → add_connection master username slave v ≡ (x, pos e)
      → x.others ≡ p ∷ []
      → login_address master x.state ip ≡ addr
      → length (master.garbage x.state 4) ≡ 4
      → write_packet master p.socket
          (signed (master.garbage x.state 4) (login_packet addr) username)
          x.state
        ≡ done n t
      → write_packet master slave acceptance t ≡ done k u
      → length (backup.garbage a address_size) ≡ address_size
      → create_directory backup (text "./sync_directories/sync_dir_") username a ≡ done made b
      → (login master slave q w ≡ done tt (record x { state = u; locked = false }))
        × (receive backup (signed (master.garbage x.state 4) (login_packet addr) username) r a
            ≡ done (record r { users = add_address username addr r.users }) b)
  unfolding login lock
  login_end_to_end q ip_port p w v x is_new t u n k e r a b made named is_name is_ip free added
        connected alone address four wrote answered room directory =
      (
        rw (named, bind)
            (rw (is_name, is_ip, free)
              (rw (added) (
                rw (connected)
                  (accept_login-backup p x t u n k alone address four wrote answered)))),
        receive-login_packet backup (master.garbage x.state 4) addr username four ends sixteen r a b
            made room directory,
      )
