-- ===== src/InternalRouter/Vote.antt =====
-- The vote for a new master: the loop `while (voting)` of `InternalRouter::start` in
-- `server/comms/router/internal_router.cpp`, one packet at a time. The backups stand in a ring: each
-- reads from the one before it and writes to `client_socket`, which leads to the next.
pub mod Reply
pub mod Ring
pub mod Start
pub mod Election
use dropbox_ufrgs_sisop.Prelude.{
  ℕ, ◌++◌, ◌∷◌, [], replicate, Bool, true, false, Option, none, some, ◌==◌, if◌then◌else◌,
}
use dropbox_ufrgs_sisop.Prelude.Int.{ℤ, pos, negsuc, ◌==ℤ◌, ltb_ℤ, to_int}
use dropbox_ufrgs_sisop.Prelude.Outcome.{
  Outcome, done, raised, fault, bind_error, M, bind, ◌>>=◌, ◌>>◌, return, catch,
}
use dropbox_ufrgs_sisop.Bytes.{Bytes, c_string}
use dropbox_ufrgs_sisop.Text.{rfind, before, after}
use dropbox_ufrgs_sisop.Text.Numbers.{atoi}
use dropbox_ufrgs_sisop.Os.{Os}
use dropbox_ufrgs_sisop.PacketType.{code, vote}
use dropbox_ufrgs_sisop.Packet.{Packet, build_packet, header_size}
use dropbox_ufrgs_sisop.Socket.{Socket, write_packet, close_connection}

-- A server's address as `server_ip_port_t` keeps it.
pub record Address : Type 0 where
  pub server_ip : Bytes
  pub server_port : ℤ

-- What the loop reads and writes of an `InternalRouter`; `id` is its `_id`, which `get_id` returns
-- and `set_relaunch` resets, and `server` is the address that `client_socket` is set up for.
pub record Voter : Type 0 where
  pub id : ℕ
  pub is_master : Bool
  pub relaunch : Bool
  pub adjacent : Address
  pub client_socket : Socket
  pub server : Address

-- `my_vote`, whose text is this server's address
unfoldable pub my_vote : ℕ → Bytes → Packet
my_vote id ip_port = build_packet (code vote) 0 id ip_port

-- `InternalRouter::set_relaunch`
unfoldable pub set_relaunch : Voter → Voter
set_relaunch v = record v {
  id = 0;
  adjacent = record { server_ip = []; server_port = pos 0 };
  relaunch = true;
}

module _ (os : Os) where
  send_vote : Packet → Voter → M os.State (Unit {0})
  send_vote p v s = bind (write_packet os v.client_socket p s) (λ _. done tt)

  -- `BackupClientSocket::reset_connection`. The old descriptor stays open.
  unfoldable pub reset_connection : Address → Voter → M os.State Voter
  reset_connection a v s =
      let (fd, t) = os.socket s in
      elim fd [
        | negsuc _ ↦ raised bind_error t
        | pos n ↦
            if os.resolves t a.server_ip
            then done
                (record v {
                  client_socket = record {
                    sockfd = n;
                    port = a.server_port;
                    is_waiting = false;
                    buffer = replicate header_size 0;
                  };
                  server = a;
                })
                t
            else fault
      ]

  -- A vote with `seqn` 1: the vote has ended, and the text names the master.
  unfoldable pub end_vote : Packet → Voter → Packet → M os.State (Voter × Bool)
  unfolding send_vote
  end_vote mine v p = do
    catch (send_vote mine v) (λ _. return tt)
    ip_port ← λ s. elim (c_string p.payload) [ none ↦ fault | some text ↦ done text s ]
    let a : Address = record {
      server_ip = before (rfind b':' ip_port) ip_port;
      server_port = atoi (after (rfind b':' ip_port) ip_port);
    }
    w ← reset_connection a v
    return (set_relaunch w, false)

  -- The own vote has come round: this server is the master, and says so.
  unfoldable pub win : Voter → Packet → M os.State (Voter × Bool)
  unfolding send_vote
  win v p = do
    send_vote (record p { seqn = 1 }) v
    closed ← close_connection os v.client_socket
    return (record v { is_master = true; client_socket = closed }, false)

  -- A vote with `seqn` 0.
  unfoldable pub count_vote : Packet → Voter → Packet → M os.State (Voter × Bool)
  unfolding send_vote
  count_vote mine v p =
      if pos v.id ==ℤ to_int p.total_size
      then win v p
      else if ltb_ℤ (pos v.id) (to_int p.total_size)
      then (do send_vote mine v; return (v, true))
      else (do send_vote p v; return (v, true))

  -- One round of the loop, on the packet that it read. The flag is `voting`.
  unfoldable pub vote_step : Packet → Voter → Packet → M os.State (Voter × Bool)
  vote_step mine v p =
      if p.type == code vote
      then if p.seqn == 1
        then end_vote mine v p
        else if p.seqn == 0
        then count_vote mine v p
        else return (v, true)
      else return (v, true)
