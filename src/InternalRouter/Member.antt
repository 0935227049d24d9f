-- ===== src/InternalRouter/Member.antt =====
-- `main` of `server/main.cpp` on the side of a backup: the arguments, and how a backup joins the
-- servers. `BackupClientSocket` is `server/comms/socket/backup_client_socket.cpp`.
use dropbox_ufrgs_sisop.Prelude.{
  ℕ, ◌++◌, ◌∷◌, [], List, Bool, false, Option, none, some, replicate, ◌==◌, ◌||◌, if◌then◌else◌,
}
use dropbox_ufrgs_sisop.Prelude.Int.{ℤ, pos, negsuc, is_negative, to_int}
use dropbox_ufrgs_sisop.Prelude.Outcome.{
  done, raised, exited, fault, M, bind, bind_error, connect_error, or_fault, catch, ◌>>=◌, ◌>>◌,
  return,
}
use dropbox_ufrgs_sisop.Bytes.{Bytes, c_string, bytes_eq}
use dropbox_ufrgs_sisop.Text.{find, before, after, text}
use dropbox_ufrgs_sisop.Text.Numbers.{stoi, atoi, to_string}
use dropbox_ufrgs_sisop.Os.{Os}
use dropbox_ufrgs_sisop.PacketType.{code, join_req, join_resp, your_id_resp}
use dropbox_ufrgs_sisop.Packet.{Packet, build_packet, header_size}
use dropbox_ufrgs_sisop.Socket.{Socket, read_packet, write_packet}
use dropbox_ufrgs_sisop.InternalRouter.Vote.{Address}

-- The arguments of the program.
pub record Arguments : Type 0 where
  pub port : ℤ
  pub is_backup : Bool
  pub master_ip : Bytes
  pub master_port : ℤ
  pub my_ip : Bytes

-- A `BackupClientSocket`, with the server that it is set up for.
pub record BackupClientSocket : Type 0 where
  pub socket : Socket
  pub server : Address

-- What a backup is told of its place: `_id`, which has no value at first, `external_ip` and `adjacent`.
pub record Member : Type 0 where
  pub client_socket : BackupClientSocket
  pub id : Option ℤ
  pub external_ip : Bytes
  pub adjacent : Address

-- Whether a role is one of the two.
abbrev pub is_role : Bytes → Bool
is_role role = bytes_eq role (text "master") || bytes_eq role (text "backup")

-- The tests on `argc` and `argv`, whose first element is the program; `none` is a usage message. With
-- two arguments `my_ip` is assigned from NULL.
unfoldable pub arguments : {S : Type 0} → List Bytes → M S Arguments
arguments (_ ∷ port ∷ role ∷ rest) s =
    if is_role role
    then (elim rest [
      | [] ↦ fault
      | my_ip ∷ [] ↦
          done
            (record {
              port = atoi port;
              is_backup = bytes_eq role (text "backup");
              master_ip = [];
              master_port = pos 0;
              my_ip = my_ip;
            })
            s
      | master_ip ∷ master_port ∷ my_ip ∷ [] ↦
          done
            (record {
              port = atoi port;
              is_backup = bytes_eq role (text "backup");
              master_ip = master_ip;
              master_port = atoi master_port;
              my_ip = my_ip;
            })
            s
      | _ ↦ exited s
    ])
    else exited s
arguments _ s = exited s

-- The request of a backup to join, with the address that it can be reached at.
unfoldable pub join_packet : Bytes → ℤ → Packet
join_packet my_ip port = build_packet (code join_req) 0 1 (my_ip ++ (b':' ∷ to_string port))

module _ (os : Os) where
  -- `BackupClientSocket::BackupClientSocket`
  unfoldable pub new_backup_client_socket : Bytes → ℤ → M os.State BackupClientSocket
  new_backup_client_socket server_address server_port s =
      let (fd, t) = os.socket s in
      elim fd [
        | negsuc _ ↦ raised bind_error t
        | pos n ↦
            if os.resolves t server_address
            then done
                (record {
                  socket = record {
                    sockfd = n;
                    port = server_port;
                    is_waiting = false;
                    buffer = replicate header_size 0;
                  };
                  server = record { server_ip = server_address; server_port = server_port };
                })
                t
            else fault
      ]

  -- `BackupClientSocket::connect_to_server`
  unfoldable pub connect_to_server : BackupClientSocket → M os.State (Unit {0})
  connect_to_server c s =
      let (err, t) = os.connect s c.socket.sockfd c.server.server_ip c.server.server_port in
      if is_negative err then raised connect_error t else done tt t

  -- `client_soc->read_packet()`
  abbrev pub read_answer : ℕ → Member → M os.State (Packet × Member)
  read_answer fuel m s =
      bind (read_packet os fuel m.client_socket.socket s)
        (λ r. done (r.0, record m { client_socket = record m.client_socket { socket = r.1 } }))

  -- `if(p->type == packet_type::JOIN_RESP)`: the neighbour, and the packet behind this one
  unfoldable pub take_neighbour : ℕ → Packet → Member → M os.State (Packet × Member)
  take_neighbour fuel p m =
      if p.type == code join_resp
      then (do
        ip_port ← or_fault (c_string p.payload)
        port ← λ s. elim (stoi (after (find b':' ip_port) ip_port)) [
          | none ↦ exited s
          | some port ↦ done port s
        ]
        read_answer fuel (record m {
          adjacent = record { server_ip = before (find b':' ip_port) ip_port; server_port = port };
        }))
      else return (p, m)

  -- `if(p->type == packet_type::YOUR_ID_RESP)`
  unfoldable pub take_id : Packet → Member → M os.State Member
  take_id p m =
      if p.type == code your_id_resp
      then (do
        ip ← or_fault (c_string p.payload)
        return (record m { id = some (to_int p.total_size); external_ip = ip }))
      else return m

  -- From the connection to the master up to the start of the internal router. A refused connection
  -- ends the program.
  unfoldable pub join_servers : ℕ → Bytes → ℤ → BackupClientSocket → M os.State Member
  join_servers fuel my_ip port client_soc = do
    catch (connect_to_server client_soc) (λ _ s. exited s)
    _ ← write_packet os client_soc.socket (join_packet my_ip port)
    answer ← read_answer fuel (record {
      client_socket = client_soc;
      id = none;
      external_ip = [];
      adjacent = record { server_ip = []; server_port = pos 0 };
    })
    placed ← take_neighbour fuel answer.0 answer.1
    take_id placed.0 placed.1
