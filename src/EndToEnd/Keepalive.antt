-- ===== src/EndToEnd/Keepalive.antt =====
-- A silent backup and a master that is alive.
use dropbox_ufrgs_sisop.Prelude.{ℕ, ◌≡◌, refl, true, false, some, get_elem?, arith}
use dropbox_ufrgs_sisop.Prelude.Outcome.{done, bind, within, catch}
use dropbox_ufrgs_sisop.Prelude.Outcome.Laws.{bind_step}
use dropbox_ufrgs_sisop.Os.{Os}
use dropbox_ufrgs_sisop.Packet.{build_packet}
use dropbox_ufrgs_sisop.Socket.{Socket, read_packet, write_packet}
use dropbox_ufrgs_sisop.InternalRouter.Broadcast.{Peer}
use dropbox_ufrgs_sisop.InternalRouter.Backup.{
  Follower, keepalive_packet, keepalive_round, silent_round, readable_round, receive,
}
use dropbox_ufrgs_sisop.InternalRouter.Master.{
  Master, handle_backup, answer_keepalive, keepalive_answer, peer,
}

module _ (master backup : Os) where
  handle_backup-keepalive_packet :
      (i : ℕ) (p : Peer) (m : Master master) (t : master.State) (k : ℕ)
      → get_elem? m.others i ≡ some p
      → write_packet master p.socket keepalive_answer m.state ≡ done k t
      → handle_backup master i keepalive_packet m ≡ done tt (record m { state = t })
  unfolding handle_backup answer_keepalive keepalive_packet build_packet
  handle_backup-keepalive_packet i p m t k found wrote =
      let here : peer master i m ≡ done p m = ground arith in
      bind_step _ here (rw (wrote, within, bind))

  -- A backup that has heard nothing for one period, and can write to its master, asks it for a sign
  -- of life; a master with this backup at place `i`, which can write to it, answers that request with
  -- one packet and is otherwise unchanged; and a backup that reads the answer before another period
  -- is over stays a follower, as if it had never waited.
  pub keepalive_end_to_end :
      (fuel i j k : ℕ) (r : Follower) (soc : Socket) (s t u v : backup.State) (p : Peer)
      (m : Master master) (q : master.State)
      → r.half_timeout ≡ false
      → write_packet backup r.client_socket keepalive_packet s ≡ done j t
      → get_elem? m.others i ≡ some p
      → write_packet master p.socket keepalive_answer m.state ≡ done k q
      → read_packet backup fuel r.client_socket u ≡ done (keepalive_answer, soc) v
      → (keepalive_round backup fuel false r s ≡ done (record r { half_timeout = true }) t)
        × (handle_backup master i keepalive_packet m ≡ done tt (record m { state = q }))
        × (keepalive_round backup fuel true (record r { half_timeout = true }) u
            ≡ done (record r { client_socket = soc }) v)
  unfolding keepalive_round silent_round readable_round receive keepalive_answer build_packet
  keepalive_end_to_end fuel i j k r soc s t u v p m q fresh asked found told answered = (
    rw fresh (rw (asked, catch, bind)),
    handle_backup-keepalive_packet i p m q k found told,
    rw (answered, catch, bind) (rw fresh refl),
  )
