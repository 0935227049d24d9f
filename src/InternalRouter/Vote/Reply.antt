-- ===== src/InternalRouter/Vote/Reply.antt =====
-- What a backup sends for a vote that it receives.
use dropbox_ufrgs_sisop.Text.{before, rfind, after}
use dropbox_ufrgs_sisop.Text.Numbers.{atoi}
use dropbox_ufrgs_sisop.Bytes.{Bytes, c_string}
use dropbox_ufrgs_sisop.Prelude.{
  ℕ, ◌≡◌, refl, Bool, true, false, arith, if◌then◌else◌, some, [], ◌⊎◌, replicate, inl, inr,
}
use dropbox_ufrgs_sisop.Prelude.Int.{pos, ltb_ℤ, ◌==ℤ◌, to_int}
use dropbox_ufrgs_sisop.Prelude.Outcome.{done, raised, write_error, catch, bind}
use dropbox_ufrgs_sisop.PacketType.{code, vote}
use dropbox_ufrgs_sisop.Os.{Os}
use dropbox_ufrgs_sisop.Packet.{Packet, header_size, build_packet}
use dropbox_ufrgs_sisop.Socket.{write_packet, close_connection}
use dropbox_ufrgs_sisop.InternalRouter.Vote.{
  Voter, vote_step, count_vote, win, end_vote, reset_connection, set_relaunch, my_vote, Address,
}

-- The packet that goes on to the next backup for a running vote.
abbrev pub reply : Packet → ℕ → Packet → Packet
reply mine id p =
    if pos id ==ℤ to_int p.total_size
    then record p { seqn = 1 }
    else if ltb_ℤ (pos id) (to_int p.total_size)
    then mine
    else p

-- Whether the vote ends here.
abbrev pub wins : ℕ → Packet → Bool
wins id p = pos id ==ℤ to_int p.total_size

-- A running vote is answered by one packet to the next backup: the vote itself if its id is
-- smaller than the receiver's, the receiver's own if it is greater, and the announcement if they
-- are equal. Where that packet can be sent, the receiver becomes the master, closes its connection
-- to the next backup and leaves the loop in the last case, and goes on with the vote unchanged in
-- the others.
pub vote_step-reply :
    (os : Os) (mine p : Packet) (v : Voter) (s t : os.State) (n : ℕ)
    → p.type ≡ code vote
    → p.seqn ≡ 0
    → write_packet os v.client_socket (reply mine v.id p) s ≡ done n t
    → vote_step os mine v p s ≡ (
        if wins v.id p
        then done
            (
              record v { is_master = true; client_socket = record v.client_socket { sockfd = 0 } },
              false,
            )
            (os.close t v.client_socket.sockfd)
        else done (v, true) t)
unfolding vote_step count_vote win close_connection
vote_step-reply os mine p v s t n typed running sent = ground arith

pub my_vote-seqn : (id : ℕ) (ip_port : Bytes) → (my_vote id ip_port).seqn ≡ 0
unfolding my_vote build_packet
my_vote-seqn id ip_port = refl

-- The address that an announcement carries: what stands before and after its last colon.
abbrev pub announced : Bytes → Address
announced text = record {
  server_ip = before (rfind b':' text) text;
  server_port = atoi (after (rfind b':' text) text);
}

-- The state in which a backup leaves the vote that another has won.
abbrev pub relaunched : ℕ → Bytes → Voter → Voter
relaunched fd text v = record {
  id = 0;
  is_master = v.is_master;
  relaunch = true;
  adjacent = record { server_ip = []; server_port = pos 0 };
  client_socket = record {
    sockfd = fd;
    port = atoi (after (rfind b':' text) text);
    is_waiting = false;
    buffer = replicate header_size 0;
  };
  server = announced text;
}

module _ (os : Os) (mine p : Packet) (v : Voter) (text : Bytes) (s t u : os.State) (fd : ℕ)
    (named : c_string p.payload ≡ some text) (opened : os.socket t ≡ (pos fd, u))
    (known : os.resolves u (announced text).server_ip ≡ true) where
  end_vote-sent :
      (n : ℕ)
      → write_packet os v.client_socket mine s ≡ done n t
      → end_vote os mine v p s ≡ done (relaunched fd text v, false) u
  unfolding end_vote reset_connection set_relaunch
  end_vote-sent n sent =
      rw (sent, end_vote, catch, bind)
        (rw (named, end_vote, bind) (rw (opened, reset_connection, bind) (ground arith)))

  end_vote-lost :
      write_packet os v.client_socket mine s ≡ raised write_error t
      → end_vote os mine v p s ≡ done (relaunched fd text v, false) u
  unfolding end_vote reset_connection set_relaunch
  end_vote-lost lost =
      rw (lost, end_vote, catch, bind)
        (rw (named, end_vote, bind) (rw (opened, reset_connection, bind) (ground arith)))

-- The announcement of the master stops at the next backup. If a new socket can be had and the name
-- of the master's host is known, a vote with `seqn` 1 sets the receiver up for the announced
-- master and ends its part in the vote; but what it sends on, or fails to send, is its own vote,
-- whose `seqn` is 0.
pub vote_step_announcement :
    (os : Os) (p : Packet) (v : Voter) (ip_port text : Bytes) (s t u : os.State) (fd : ℕ)
    → p.type ≡ code vote
    → p.seqn ≡ 1
    → ((n : ℕ) × (write_packet os v.client_socket (my_vote v.id ip_port) s ≡ done n t))
      ⊎ (write_packet os v.client_socket (my_vote v.id ip_port) s ≡ raised write_error t)
    → c_string p.payload ≡ some text
    → os.socket t ≡ (pos fd, u)
    → os.resolves u (announced text).server_ip ≡ true
    → (vote_step os (my_vote v.id ip_port) v p s ≡ done (relaunched fd text v, false) u)
      × ((my_vote v.id ip_port).seqn ≡ 0)
unfolding vote_step
vote_step_announcement os p v ip_port text s t u fd typed ended (inl (n, sent)) named opened known =
    (
      ground (
        arith,
        end_vote-sent os (my_vote v.id ip_port) p v text s t u fd named opened known n sent,
      ),
      my_vote-seqn v.id ip_port,
    )
vote_step_announcement os p v ip_port text s t u fd typed ended (inr lost) named opened known = (
  ground (arith, end_vote-lost os (my_vote v.id ip_port) p v text s t u fd named opened known lost),
  my_vote-seqn v.id ip_port,
)
