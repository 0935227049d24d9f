-- ===== src/InternalRouter/Vote/Election/Refinement.antt =====
-- A round of the ring, and a round of the loop of one backup.
use dropbox_ufrgs_sisop.Prelude.{
  ℕ, ◌≡◌, [], ◌∷◌, true, false, some, if◌then◌else◌, not, Bool-cases, inl, inr, arith, sym, subst,
  ◌⊎◌,
}
use dropbox_ufrgs_sisop.Prelude.Int.{pos}
use dropbox_ufrgs_sisop.Prelude.Outcome.{done}
use dropbox_ufrgs_sisop.Bytes.{Bytes, c_string}
use dropbox_ufrgs_sisop.Os.{Os}
use dropbox_ufrgs_sisop.PacketType.{code, vote}
use dropbox_ufrgs_sisop.Packet.{Packet}
use dropbox_ufrgs_sisop.Socket.{write_packet}
use dropbox_ufrgs_sisop.InternalRouter.Vote.{Voter, my_vote, vote_step}
use dropbox_ufrgs_sisop.InternalRouter.Vote.Reply.{
  reply, wins, announced, relaunched, vote_step-reply, vote_step_announcement,
}
use dropbox_ufrgs_sisop.InternalRouter.Vote.Election.{vote_of, sent, elected, leaves}

module _ (os : Os) (n : ℕ) (ids : ℕ → ℕ) (addresses : ℕ → Bytes) where
  -- What a backup does behind its packet, in the state in which that has been written: the master closes
  -- its connection, and who hears of a master has a socket for it.
  abbrev pub behind : ℕ → Packet → Voter → os.State → os.State
  behind i p v t =
      if elected n ids addresses i p
      then os.close t v.client_socket.sockfd
      else if leaves n ids addresses i p
      then (os.socket t).1
      else t

  -- What `vote_step` makes of a packet in `s`, as the ring sees it; `t` is the state in which its own
  -- packet has been written.
  abbrev pub Follows : ℕ → Packet → Voter → os.State → os.State → Type 0
  Follows i p v s t =
      (w : Voter) × (vote_step os (vote_of n ids addresses i) v p s
        ≡ done (w, not (leaves n ids addresses i p)) (behind i p v t))
      × (w.is_master ≡ (if elected n ids addresses i p then true else v.is_master))

  -- A server with a socket and a host for the announced master.
  abbrev pub CanRelaunch : Packet → os.State → Type 0
  CanRelaunch p t =
      (text : Bytes) × (fd : ℕ) × (u : os.State) × (c_string p.payload ≡ some text)
      × (os.socket t ≡ (pos fd, u))
      × (os.resolves u (announced text).server_ip ≡ true)

  sent_running :
      (i id : ℕ) (p q : Packet)
      → id ≡ ids i
      → p.seqn ≡ 0
      → sent n ids addresses i p ≡ q ∷ []
      → q ≡ reply (vote_of n ids addresses i) id p
  sent_running i id p q own running sends = ground arith

  sent_ended :
      (i : ℕ) (p q : Packet)
      → p.seqn ≡ 1
      → sent n ids addresses i p ≡ q ∷ []
      → q ≡ vote_of n ids addresses i
  sent_ended i p q ended sends = ground arith

  won_round :
      (i : ℕ) (p : Packet) (v : Voter) (s t : os.State) (k : ℕ)
      → v.id ≡ ids i
      → p.type ≡ code vote
      → p.seqn ≡ 0
      → write_packet os v.client_socket (reply (vote_of n ids addresses i) v.id p) s ≡ done k t
      → wins v.id p ≡ true
      → Follows i p v s t
  won_round i p v s t k own typed running wrote won = (
    record v { is_master = true; client_socket = record v.client_socket { sockfd = 0 } },
    ground (arith, vote_step-reply os (vote_of n ids addresses i) p v s t k typed running wrote),
    ground arith,
  )

  lost_round :
      (i : ℕ) (p : Packet) (v : Voter) (s t : os.State) (k : ℕ)
      → v.id ≡ ids i
      → p.type ≡ code vote
      → p.seqn ≡ 0
      → write_packet os v.client_socket (reply (vote_of n ids addresses i) v.id p) s ≡ done k t
      → wins v.id p ≡ false
      → Follows i p v s t
  lost_round i p v s t k own typed running wrote lost = (
    v,
    ground (arith, vote_step-reply os (vote_of n ids addresses i) p v s t k typed running wrote),
    ground arith,
  )

  ended_round :
      (i : ℕ) (p : Packet) (v : Voter) (s t : os.State) (k : ℕ)
      → v.id ≡ ids i
      → p.type ≡ code vote
      → p.seqn ≡ 1
      → write_packet os v.client_socket (vote_of n ids addresses i) s ≡ done k t
      → CanRelaunch p t
      → Follows i p v s t
  ended_round i p v s t k own typed ended wrote (text, fd, u, named, opened, known) = (
    relaunched fd text v,
    ground (
      arith,
      opened,
      (vote_step_announcement os p v (addresses i) text s t u fd typed ended
          (inl (
            k,
            subst (λ m. write_packet os v.client_socket (my_vote m (addresses i)) s ≡ done k t)
                (sym own) wrote,
          ))
          named opened known).0,
    ),
    ground arith,
  )

  -- What the ring says of a backup is what its loop does. Where backup `i` has the id `ids i`, the
  -- vote `p` is running, or has ended and the master that it names can be reached, and the packet that
  -- the ring has the backup send for `p` can be written, one round of its loop on `p` ends in the state in
  -- which it has written that packet, and nothing more, and then has closed its connection if the ring has
  -- it become the master, and has opened a socket if the ring has it hear of one; it returns the flag `voting` cleared exactly if the ring has the backup leave the loop, and
  -- makes it a master exactly if the ring does.
  pub vote_step-round :
      (i : ℕ) (p q : Packet) (v : Voter) (s t : os.State) (k : ℕ)
      → v.id ≡ ids i
      → p.type ≡ code vote
      → (p.seqn ≡ 0) ⊎ ((p.seqn ≡ 1) × CanRelaunch p t)
      → sent n ids addresses i p ≡ q ∷ []
      → write_packet os v.client_socket q s ≡ done k t
      → Follows i p v s t
  vote_step-round i p q v s t k own typed (inl running) sends wrote =
      let answered : write_packet os v.client_socket (reply (vote_of n ids addresses i) v.id p) s
          ≡ done k t =
        subst (λ r. write_packet os v.client_socket r s ≡ done k t)
          (sent_running i v.id p q own running sends) wrote in
      elim (Bool-cases (wins v.id p)) [
        | inl won ↦ won_round i p v s t k own typed running answered won
        | inr lost ↦ lost_round i p v s t k own typed running answered lost
      ]
  vote_step-round i p q v s t k own typed (inr (ended, known)) sends wrote =
      ended_round i p v s t k own typed ended
        (subst (λ r. write_packet os v.client_socket r s ≡ done k t) (sent_ended i p q ended sends)
          wrote)
        known
