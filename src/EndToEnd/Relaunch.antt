-- ===== src/EndToEnd/Relaunch.antt =====
-- A backup that has lost a vote, and follows a second master.
use mathlib.Core.List.{Perm}
use dropbox_ufrgs_sisop.Prelude.{ℕ, suc, ◌≡◌, ◌<◌, ◌^◌, List, Bool, true, refl, ◌∙◌}
use dropbox_ufrgs_sisop.Prelude.Int.{ℤ, pos}
use dropbox_ufrgs_sisop.Prelude.Outcome.{done}
use dropbox_ufrgs_sisop.Prelude.Outcome.Laws.{bind_step}
use dropbox_ufrgs_sisop.Bytes.{Bytes, NoNul}
use dropbox_ufrgs_sisop.Text.{Without}
use dropbox_ufrgs_sisop.Os.{Os}
use dropbox_ufrgs_sisop.Socket.{Socket, read_packet, write_packet}
use dropbox_ufrgs_sisop.Socket.Server.{ServerSocket}
use dropbox_ufrgs_sisop.InternalRouter.Master.{your_id_packet}
use dropbox_ufrgs_sisop.InternalRouter.Backup.{keepalive_packet}
use dropbox_ufrgs_sisop.InternalRouter.Member.{
  join_servers, Member, BackupClientSocket, join_packet,
}
use dropbox_ufrgs_sisop.InternalRouter.Succession.{follow_masters, start}
use dropbox_ufrgs_sisop.InternalRouter.Succession.Context.{addresses_of}
use dropbox_ufrgs_sisop.InternalRouter.Succession.Heir.{Hears}
use dropbox_ufrgs_sisop.EndToEnd.Failover.{polls_of, failover_end_to_end}
use dropbox_ufrgs_sisop.InternalRouter.Vote.{Voter}

module _ (os : Os) where
  -- What a backup makes of its connection when it has lost a vote.
  abbrev pub next_socket : Voter → BackupClientSocket
  next_socket v = record { socket = v.client_socket; server = v.server }

  follow_masters-relaunch :
      (my_ip : Bytes) (port : ℤ) (masters rounds fuel : ℕ) (polls : ℕ → List Bool)
      (server_socket : ServerSocket) (c : BackupClientSocket) (m : Member) (context : List Bytes)
      (v : Voter) (r s t : os.State)
      → join_servers os fuel my_ip port c r ≡ done m s
      → start os rounds fuel (polls masters) server_socket m s ≡ done (context, v) t
      → v.relaunch ≡ true
      → follow_masters os (suc masters) rounds fuel polls my_ip port server_socket c r
        ≡ follow_masters os masters rounds fuel polls my_ip port server_socket (next_socket v) t
  unfolding follow_masters
  follow_masters-relaunch my_ip port masters rounds fuel polls server_socket c m context v r s t
        joined voted again =
      bind_step _ joined (bind_step _ voted (rw again refl))

  -- A backup that has lost the vote after its first master, joins the winner as its first backup,
  -- hears of logins from it, one packet for each, and then hears nothing for two rounds, while it
  -- can still write to it, becomes the master after it. Its context is the addresses of the logins
  -- that it has heard of from the second master only, in some order and each as often as it heard
  -- of it, whatever addresses it had in its context after the first. Its own address has no colon
  -- and no NUL, and its port fits 16 bits.
  pub relaunch_end_to_end :
      (my_ip : Bytes) (port : ℕ) (logins : List (Bytes × Bytes)) (masters rounds fuel j k : ℕ)
      (polls : ℕ → List Bool) (server_socket : ServerSocket) (c : BackupClientSocket) (m : Member)
      (before : List Bytes) (voter : Voter) (soc d : Socket) (q r s t u v w x : os.State)
      → NoNul my_ip
      → Without b':' my_ip
      → port < 2 ^ 16
      → join_servers os fuel my_ip (pos port) c q ≡ done m r
      → start os rounds fuel (polls (suc masters)) server_socket m r ≡ done (before, voter) s
      → voter.relaunch ≡ true
      → polls masters ≡ polls_of os logins
      → os.connect s voter.client_socket.sockfd voter.server.server_ip voter.server.server_port
        ≡ (pos 0, t)
      → write_packet os voter.client_socket (join_packet my_ip (pos port)) t ≡ done j u
      → read_packet os fuel voter.client_socket u ≡ done (your_id_packet 0 my_ip, soc) v
      → Hears os fuel logins soc v d w
      → write_packet os d keepalive_packet w ≡ done k x
      → (context : List Bytes) × (follow_masters os
            (suc (suc masters))
            rounds
            fuel
            polls
            my_ip
            (pos port)
            server_socket
            c
            q
          ≡ done context x)
        × Perm context (addresses_of logins)
  relaunch_end_to_end my_ip port logins masters rounds fuel j k polls server_socket c m before voter
        soc d q r s t u v w x ends plain small joined voted again selected connected asked answered
        hears silent =
      let (context, follows, all, _) =
        failover_end_to_end os my_ip port logins masters rounds fuel j k polls server_socket
          (next_socket voter) soc d s t u v w x ends plain small selected connected asked answered
          hears silent in
      (
        context,
        follow_masters-relaunch my_ip (pos port) (suc masters) rounds fuel polls server_socket c m
              before voter q r s joined voted again
            ∙ follows,
        all,
      )
