-- ===== src/Tests/Votes.antt =====
-- Votes in a ring of three backups, and a handoff of one connection.
use dropbox_ufrgs_sisop.Prelude.{
  ℕ, ◌≡◌, ◌≤◌, refl, List, [], ◌∷◌, ◌++◌, true, false, arith, length, inl,
}
use dropbox_ufrgs_sisop.Prelude.Int.{pos}
use dropbox_ufrgs_sisop.Prelude.Outcome.{done}
use dropbox_ufrgs_sisop.Bytes.{Bytes}
use dropbox_ufrgs_sisop.Text.{text}
use dropbox_ufrgs_sisop.Packet.{Packet, header, build_packet}
use dropbox_ufrgs_sisop.Socket.{write_packet}
use dropbox_ufrgs_sisop.InternalRouter.Vote.{Voter, my_vote, vote_step, win}
use dropbox_ufrgs_sisop.InternalRouter.Vote.Reply.{relaunched, vote_step_announcement}
use dropbox_ufrgs_sisop.InternalRouter.Vote.Ring.{Backup, Lap-wins, Lap}
use dropbox_ufrgs_sisop.Router.Handoff.{
  Handoff, Reach, here, next, find_idle, accept, put, flag, find_waiting, copy_out, Reach-OnTheWay,
  Acceptor, Taker,
}
use dropbox_ufrgs_sisop.Tests.World.{world}

abbrev pub home : Bytes
home = text "10.0.0.2:4002"

abbrev pub voter : Voter
voter = record {
  id = 2;
  is_master = false;
  relaunch = false;
  adjacent = record { server_ip = text "10.0.0.3"; server_port = pos 4003 };
  client_socket = record { sockfd = 5; port = pos 4003; is_waiting = false; buffer = [] };
  server = record { server_ip = text "10.0.0.3"; server_port = pos 4003 };
}

-- The vote of a backup with a greater id.
abbrev greater : Packet
greater = record { type = 34; seqn = 0; total_size = 3; length = 2; payload = 65 ∷ 0 ∷ [] }

-- The announcement of the master at `10.0.0.1:4001`.
abbrev pub master : Bytes
master = text "10.0.0.1:4001"

abbrev pub announcement : Packet
announcement = record {
  type = 34;
  seqn = 1;
  total_size = 1;
  length = 14;
  payload = master ++ (0 ∷ []);
}

vote_step_announcement_example :
    (vote_step world (my_vote 2 home) voter announcement []
      ≡ done (relaunched 7 master voter, false) [])
    × ((my_vote 2 home).seqn ≡ 0)
unfolding write_packet header my_vote build_packet
vote_step_announcement_example =
    vote_step_announcement world announcement voter home master [] [] [] 7 refl refl
      (inl (30, refl)) refl refl refl

abbrev ring : List Backup
ring = (3, text "c") ∷ (2, text "b") ∷ []

Lap-wins_example :
    (q : Packet) × Lap world ring (my_vote 1 (text "a")) q
    × ((v : Voter) (s : Bytes)
        → vote_step world (my_vote 1 (text "a")) (record v { id = 1 }) q s
          ≡ win world (record v { id = 1 }) q s)
Lap-wins_example =
    Lap-wins world 1 (text "a") ring (omega arith) (omega arith, (omega arith, tt))
      (omega arith, (omega arith, tt), (omega arith, tt, tt))

-- A connection that has been accepted and copied, while the flag is still set.
abbrev copied : Handoff
copied = record {
  is_waiting = true;
  out_slave_socket = 4 ∷ [];
  acceptor = Acceptor.testing;
  taker = Taker.clearing;
  accepted = 4 ∷ [];
  taken = 4 ∷ [];
}

copied-Reach : Reach copied
copied-Reach =
    next
      (next
        (next (next (next (next here (find_idle refl refl)) (accept 4 refl)) (put 4 refl))
          (flag refl))
        (find_waiting refl refl))
      (copy_out refl)

Reach-OnTheWay_example : (rest : List ℕ) × (4 ∷ [] ≡ (4 ∷ []) ++ rest) × (length rest ≤ 1)
Reach-OnTheWay_example = Reach-OnTheWay copied copied-Reach
