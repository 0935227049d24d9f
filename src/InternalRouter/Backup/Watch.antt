-- ===== src/InternalRouter/Backup/Watch.antt =====
-- How long a backup waits for a silent master.
use dropbox_ufrgs_sisop.Prelude.{refl, ℕ, ◌≡◌, ◌⊎◌, inl, inr, true, false}
use dropbox_ufrgs_sisop.Prelude.Outcome.{done, raised, SocketError, catch, bind}
use dropbox_ufrgs_sisop.Os.{Os}
use dropbox_ufrgs_sisop.Socket.{write_packet}
use dropbox_ufrgs_sisop.InternalRouter.Backup.{
  Follower, keepalive_packet, silent_round, keepalive_round,
}

-- Two silent rounds in a row end the loop of a backup that follows its master: the first sends one
-- packet, and the second sends none. If that packet cannot be sent, the first round ends the loop.
pub keepalive_round_silence :
    (os : Os) (fuel : ℕ) (r : Follower) (s t : os.State)
    → r.half_timeout ≡ false
    → ((n : ℕ) × (write_packet os r.client_socket keepalive_packet s ≡ done n t))
      ⊎ ((e : SocketError) × (write_packet os r.client_socket keepalive_packet s ≡ raised e t))
    → ((keepalive_round os fuel false r s ≡ done (record r { half_timeout = true }) t)
        × (keepalive_round os fuel false (record r { half_timeout = true }) t
            ≡ done (record r { half_timeout = true; ended = true }) t))
      ⊎ (keepalive_round os fuel false r s
          ≡ done (record r { half_timeout = true; ended = true }) t)
unfolding keepalive_round silent_round
keepalive_round_silence os fuel r s t fresh (inl (n, sent)) =
    inl (rw (fresh) (rw (sent, catch, bind)), refl)
keepalive_round_silence os fuel r s t fresh (inr (e, lost)) =
    inr (rw (fresh) (rw (lost, catch, bind)))
