-- ===== src/EndToEnd/Launch.antt =====
-- The program of a server that is started as a backup, from its arguments to the loop of its router.
use mathlib.Core.List.{Perm}
use native.Mathlib.Nat.{mod-eq_of_lt}
use dropbox_ufrgs_sisop.Prelude.{ℕ, suc, ◌%◌, ◌≡◌, ◌∷◌, ◌<◌, ◌^◌, [], List, true, refl, ◌∙◌, ap}
use dropbox_ufrgs_sisop.Prelude.Int.{pos, to_unsigned}
use dropbox_ufrgs_sisop.Prelude.Outcome.{done}
use dropbox_ufrgs_sisop.Prelude.Outcome.Laws.{bind_step}
use dropbox_ufrgs_sisop.Bytes.{Bytes, NoNul}
use dropbox_ufrgs_sisop.Text.{Without, text}
use dropbox_ufrgs_sisop.Text.Numbers.{atoi}
use dropbox_ufrgs_sisop.Os.{Os}
use dropbox_ufrgs_sisop.Socket.{Socket, read_packet, write_packet}
use dropbox_ufrgs_sisop.Socket.Server.{ServerSocket, new_server_socket, bind_and_listen}
use dropbox_ufrgs_sisop.Socket.Datagram.{udp_client}
use dropbox_ufrgs_sisop.Router.Handshake.{handshake, send_handshakes}
use dropbox_ufrgs_sisop.InternalRouter.Master.{your_id_packet}
use dropbox_ufrgs_sisop.InternalRouter.Backup.{keepalive_packet}
use dropbox_ufrgs_sisop.InternalRouter.Vote.Start.{internal_port}
use dropbox_ufrgs_sisop.InternalRouter.Member.{
  BackupClientSocket, join_packet, arguments, new_backup_client_socket,
}
use dropbox_ufrgs_sisop.InternalRouter.Succession.{main, context_of_role, start_router, queue_size}
use dropbox_ufrgs_sisop.InternalRouter.Succession.Context.{addresses_of}
use dropbox_ufrgs_sisop.InternalRouter.Succession.Heir.{Hears}
use dropbox_ufrgs_sisop.EndToEnd.Failover.{
  told, polls_of, send_handshakes-told, failover_end_to_end,
}

module _ (os : Os) where
  -- The command line of a backup.
  abbrev pub command_line : Bytes → Bytes → Bytes → Bytes → Bytes → List Bytes
  command_line program port_text master_ip master_port my_ip =
      program ∷ port_text ∷ text "backup" ∷ master_ip ∷ master_port ∷ my_ip ∷ []

  arguments-command_line :
      (program port_text master_ip master_port my_ip : Bytes) (port : ℕ) (s : os.State)
      → atoi port_text ≡ pos port
      → arguments (command_line program port_text master_ip master_port my_ip) s
        ≡ done
            (record {
              port = pos port;
              is_backup = true;
              master_ip = master_ip;
              master_port = atoi master_port;
              my_ip = my_ip;
            })
            s
  unfolding arguments
  arguments-command_line program port_text master_ip master_port my_ip port s number =
      rw number refl

  handshake-told :
      (port fd : ℕ) (context : List Bytes) (s t : os.State)
      → udp_client os s ≡ done (pos fd) t
      → send_handshakes os (pos fd) port context t ≡ done tt (told os (pos fd) port context t)
      → handshake os port context s ≡ done tt (os.close (told os (pos fd) port context t) fd)
  unfolding handshake
  handshake-told port fd context s t opened tells = bind_step _ opened (bind_step _ tells refl)

  start_router-told :
      (port fd : ℕ) (master_socket : ServerSocket) (context : List Bytes) (r s t : os.State)
      → port < 2 ^ 16
      → master_socket.port ≡ pos port
      → bind_and_listen os master_socket r ≡ done (pos 0) s
      → udp_client os s ≡ done (pos fd) t
      → send_handshakes os (pos fd) port context t ≡ done tt (told os (pos fd) port context t)
      → start_router os master_socket context r
        ≡ done true (os.close (told os (pos fd) port context t) fd)
  unfolding start_router
  start_router-told port fd master_socket context r s t small numbered bound opened tells =
      let same : to_unsigned 32 master_socket.port % 2 ^ 16 ≡ port =
        ap (λ z. to_unsigned 32 z % 2 ^ 16) numbered ∙ mod-eq_of_lt small in
      bind_step _ bound (
        bind_step _
          (ap (λ q. handshake os q context s) same
            ∙ handshake-told port fd context s t opened tells)
          refl)

  -- A server that is started as a backup, with the address of its master and its own on the command
  -- line, becomes the master in its place. It is the first backup of that master and can join it,
  -- hears of logins, one packet for each, and then hears nothing for two rounds, while it can still
  -- write. Its sockets can be made, bound and listened on. Then `main` goes on to route, with the
  -- addresses of the logins as its context, in some order and each as often as it heard of it,
  -- after it has sent each of them one datagram that says on which port it is, and closed the
  -- socket for that. Its own address has no colon and no NUL, and its port is written in decimal
  -- and fits 16 bits.
  pub launch_end_to_end :
      (program port_text master_ip master_port my_ip : Bytes) (port : ℕ)
      (logins : List (Bytes × Bytes)) (masters rounds fuel j k fd : ℕ)
      (master_socket internal_socket : ServerSocket) (c : BackupClientSocket) (soc d : Socket)
      (s₀ s₁ s₂ s₃ s t u v w x y z : os.State)
      → NoNul my_ip
      → Without b':' my_ip
      → port < 2 ^ 16
      → atoi port_text ≡ pos port
      → new_server_socket os (pos port) queue_size s₀ ≡ done master_socket s₁
      → master_socket.port ≡ pos port
      → new_server_socket os (internal_port (pos port)) queue_size s₁ ≡ done internal_socket s₂
      → bind_and_listen os internal_socket s₂ ≡ done (pos 0) s₃
      → new_backup_client_socket os master_ip (internal_port (atoi master_port)) s₃ ≡ done c s
      → os.connect s c.socket.sockfd c.server.server_ip c.server.server_port ≡ (pos 0, t)
      → write_packet os c.socket (join_packet my_ip (pos port)) t ≡ done j u
      → read_packet os fuel c.socket u ≡ done (your_id_packet 0 my_ip, soc) v
      → Hears os fuel logins soc v d w
      → write_packet os d keepalive_packet w ≡ done k x
      → bind_and_listen os master_socket x ≡ done (pos 0) y
      → udp_client os y ≡ done (pos fd) z
      → (context : List Bytes) × (main os
            (suc masters)
            rounds
            fuel
            (λ _. polls_of os logins)
            (command_line program port_text master_ip master_port my_ip)
            s₀
          ≡ done true (os.close (told os (pos fd) port context z) fd))
        × Perm context (addresses_of logins)
  unfolding main context_of_role
  launch_end_to_end program port_text master_ip master_port my_ip port logins masters rounds fuel j
        k fd master_socket internal_socket c soc d s₀ s₁ s₂ s₃ s t u v w x y z ends plain small
        number made numbered inner listens client connected asked answered hears silent bound
        opened =
      let (context, follows, all, tells) =
        failover_end_to_end os my_ip port logins masters rounds fuel j k (λ _. polls_of os logins)
          internal_socket c soc d s t u v w x ends plain small refl connected asked answered hears
          silent in
      (
        context,
        bind_step _
            (arguments-command_line program port_text master_ip master_port my_ip port s₀ number)
            (bind_step _ made (
              bind_step _ inner (
                bind_step _ listens (
                  bind_step _ (bind_step _ client follows) (
                    start_router-told port fd master_socket context x y z small numbered bound
                      opened (send_handshakes-told os (pos fd) port context z small)))))),
        all,
      )
