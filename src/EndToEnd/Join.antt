-- ===== src/EndToEnd/Join.antt =====
-- A backup that joins the servers: what the master notes and answers, and what the backup makes of it.
use dropbox_ufrgs_sisop.Prelude.{ℕ, ◌≡◌, [], some, none, refl, arith}
use dropbox_ufrgs_sisop.Prelude.Int.{pos}
use dropbox_ufrgs_sisop.Prelude.Outcome.{done, bind, catch, exited}
use dropbox_ufrgs_sisop.Prelude.Outcome.Laws.{bind_step}
use dropbox_ufrgs_sisop.Bytes.{Bytes, NoNul, c_string-append}
use dropbox_ufrgs_sisop.Text.{Without}
use dropbox_ufrgs_sisop.Os.{Os}
use dropbox_ufrgs_sisop.Packet.{build_packet}
use dropbox_ufrgs_sisop.Socket.{Socket, read_packet, write_packet}
use dropbox_ufrgs_sisop.InternalRouter.Master.{Master, your_id_packet}
use dropbox_ufrgs_sisop.InternalRouter.Member.{
  BackupClientSocket, Member, join_packet, join_servers, take_neighbour, take_id, read_answer,
  connect_to_server,
}

-- The backup when it has its id, with no neighbour.
abbrev pub first_member : BackupClientSocket → Bytes → Socket → Member
first_member c my_ip soc = record {
  client_socket = record c { socket = soc };
  id = some (pos 0);
  external_ip = my_ip;
  adjacent = record { server_ip = []; server_port = pos 0 };
}

module _ (master backup : Os) (my_ip : Bytes) (port : ℕ) (ends : NoNul my_ip)
    (plain : Without b':' my_ip) where
  take_neighbour-your_id_packet :
      (fuel : ℕ) (m : Member) (v : backup.State)
      → take_neighbour backup fuel (your_id_packet 0 my_ip) m v ≡ done (your_id_packet 0 my_ip, m) v
  unfolding take_neighbour your_id_packet build_packet
  take_neighbour-your_id_packet fuel m v = refl

  take_id-your_id_packet :
      (m : Member) (v : backup.State)
      → take_id backup (your_id_packet 0 my_ip) m v
        ≡ done (record m { id = some (pos 0); external_ip = my_ip }) v
  unfolding take_id your_id_packet build_packet
  take_id-your_id_packet m v = rw (c_string-append my_ip [] ends, bind) refl

  pub join_servers-first :
      (fuel : ℕ) (c : BackupClientSocket) (soc : Socket) (s t u v : backup.State) (k : ℕ)
      → backup.connect s c.socket.sockfd c.server.server_ip c.server.server_port ≡ (pos 0, t)
      → write_packet backup c.socket (join_packet my_ip (pos port)) t ≡ done k u
      → read_packet backup fuel c.socket u ≡ done (your_id_packet 0 my_ip, soc) v
      → join_servers backup fuel my_ip (pos port) c s ≡ done (first_member c my_ip soc) v
  unfolding join_servers connect_to_server
  join_servers-first fuel c soc s t u v k connected wrote answered =
      let connects : connect_to_server backup c s ≡ done tt t = ground arith in
      let reached : catch (connect_to_server backup c) (λ _ s. exited s) s ≡ done tt t =
        rw (connects, catch) refl in
      let start : Member = record {
        client_socket = c;
        id = none;
        external_ip = [];
        adjacent = record { server_ip = []; server_port = pos 0 };
      } in
      let answer : read_answer backup fuel start u
          ≡ done
              (your_id_packet 0 my_ip, record start { client_socket = record c { socket = soc } })
              v =
        rw (answered, bind) refl in
      bind_step _ reached (
        bind_step _ wrote (
          bind_step _ answer
            (bind_step _ (take_neighbour-your_id_packet fuel _ v) (take_id-your_id_packet _ v))))
