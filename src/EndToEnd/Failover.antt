-- ===== src/EndToEnd/Failover.antt =====
-- A backup that joins a master, hears of its clients, and takes its place.
use mathlib.Core.List.{Perm}
use dropbox_ufrgs_sisop.Prelude.{
  ℕ, suc, ◌≡◌, ◌++◌, ◌∷◌, ◌<◌, ◌^◌, [], List, Bool, true, false, refl, length, replicate, sym, ap,
  ◌∙◌,
}
use dropbox_ufrgs_sisop.Prelude.Int.{ℤ, pos}
use dropbox_ufrgs_sisop.Prelude.Outcome.{done}
use dropbox_ufrgs_sisop.Prelude.Outcome.Laws.{bind_step}
use dropbox_ufrgs_sisop.Bytes.{Bytes, NoNul}
use dropbox_ufrgs_sisop.Text.{Without}
use dropbox_ufrgs_sisop.Os.{Os}
use dropbox_ufrgs_sisop.Socket.{Socket, read_packet, write_packet}
use dropbox_ufrgs_sisop.Socket.Server.{ServerSocket}
use dropbox_ufrgs_sisop.Socket.Datagram.{udp_send}
use dropbox_ufrgs_sisop.Packet.Header.{copy_bytes_self}
use dropbox_ufrgs_sisop.Router.Handshake.{handshake_packet, send_handshakes}
use dropbox_ufrgs_sisop.InternalRouter.Master.{your_id_packet}
use dropbox_ufrgs_sisop.InternalRouter.Backup.{keepalive_packet}
use dropbox_ufrgs_sisop.InternalRouter.Member.{BackupClientSocket, join_packet}
use dropbox_ufrgs_sisop.InternalRouter.Succession.{follow_masters, start}
use dropbox_ufrgs_sisop.InternalRouter.Succession.Context.{addresses_of}
use dropbox_ufrgs_sisop.InternalRouter.Succession.Heir.{Hears, start-heir}
use dropbox_ufrgs_sisop.EndToEnd.Join.{first_member, join_servers-first}
use dropbox_ufrgs_sisop.EndToEnd.Reconnect.{datagram, handshake_packet-IsPacket}

module _ (os : Os) where
  -- One datagram to each of the addresses, one after the other.
  abbrev pub told : ℤ → ℕ → List Bytes → os.State → os.State
  told fd port [] s = s
  told fd port (addr ∷ context) s =
      told fd port context (os.sendto s fd (datagram (os.garbage s 4) port) addr)

  pub send_handshakes-told :
      (fd : ℤ) (port : ℕ) (context : List Bytes) (s : os.State)
      → port < 2 ^ 16
      → send_handshakes os fd port context s ≡ done tt (told fd port context s)
  unfolding send_handshakes udp_send
  send_handshakes-told fd port [] s small = refl
  send_handshakes-told fd port (addr ∷ context) s small =
      rw
        (copy_bytes_self (handshake_packet port).length (handshake_packet port).payload
          (sym (handshake_packet-IsPacket port small).owns))
        (send_handshakes-told fd port context _ small)

  -- Rounds in which `select` finds something, and then two in which it does not.
  abbrev pub polls_of : List (Bytes × Bytes) → List Bool
  polls_of logins = replicate (length logins) true ++ (false ∷ false ∷ [])

  -- The first backup of a master, which can join it, hears of logins from it, and then hears
  -- nothing for two rounds, while it can still write to it, leaves its loop as the new master. Its
  -- context is the addresses of the logins, in some order and each as often as it heard of it; and
  -- it sends each address in its context one datagram that says on which port the new master is.
  -- Its own address has no colon and no NUL, its port fits 16 bits, and `select` finds a packet
  -- once for each login.
  pub failover_end_to_end :
      (my_ip : Bytes) (port : ℕ) (logins : List (Bytes × Bytes)) (masters rounds fuel j k : ℕ)
      (polls : ℕ → List Bool) (server_socket : ServerSocket) (c : BackupClientSocket)
      (soc d : Socket) (s t u v w x : os.State)
      → NoNul my_ip
      → Without b':' my_ip
      → port < 2 ^ 16
      → polls masters ≡ polls_of logins
      → os.connect s c.socket.sockfd c.server.server_ip c.server.server_port ≡ (pos 0, t)
      → write_packet os c.socket (join_packet my_ip (pos port)) t ≡ done j u
      → read_packet os fuel c.socket u ≡ done (your_id_packet 0 my_ip, soc) v
      → Hears os fuel logins soc v d w
      → write_packet os d keepalive_packet w ≡ done k x
      → (context : List Bytes) × (follow_masters os
            (suc masters)
            rounds
            fuel
            polls
            my_ip
            (pos port)
            server_socket
            c
            s
          ≡ done context x)
        × Perm context (addresses_of logins)
        × ((fd : ℤ) → send_handshakes os fd port context x ≡ done tt (told fd port context x))
  unfolding follow_masters
  failover_end_to_end my_ip port logins masters rounds fuel j k polls server_socket c soc d s t u v
        w x ends plain small selected connected asked answered hears silent =
      let (heir, starts, master, stays, all) =
        start-heir os fuel rounds server_socket (first_member c my_ip soc) logins d v w x k refl
          hears silent in
      (
        _,
        bind_step _
            (join_servers-first os os my_ip port ends plain fuel c soc s t u v j connected asked
              answered)
            (bind_step _
              (ap (λ p. start os rounds fuel p server_socket (first_member c my_ip soc) v) selected
                ∙ starts)
              (rw stays refl)),
        all,
        (λ fd. send_handshakes-told fd port _ x small),
      )
