-- ===== src/Tests/Elections.antt =====
-- An election of two backups, and a round of one of them.
use dropbox_ufrgs_sisop.Prelude.{ℕ, ◌%◌, ◌+◌, ◌≡◌, refl, [], ◌∷◌, true, suc, arith, inl, false}
use dropbox_ufrgs_sisop.Bytes.{Bytes}
use dropbox_ufrgs_sisop.Packet.{build_packet, header}
use dropbox_ufrgs_sisop.Socket.{write_packet}
use dropbox_ufrgs_sisop.InternalRouter.Vote.{my_vote}
use dropbox_ufrgs_sisop.InternalRouter.Vote.Election.{
  Ring, vote_of, start, after_round, round, Reach, here, next,
}
use dropbox_ufrgs_sisop.InternalRouter.Vote.Election.Safety.{IsNumbered, Reach-first_master}
use dropbox_ufrgs_sisop.InternalRouter.Vote.Election.Schedule.{Serves, run, run-is_master}
use dropbox_ufrgs_sisop.InternalRouter.Vote.Election.Refinement.{Follows, vote_step-round}
use dropbox_ufrgs_sisop.Tests.World.{world}
use dropbox_ufrgs_sisop.Tests.Votes.{voter, home}

-- The ids 1 and 2.
abbrev ids : ℕ → ℕ
ids i = suc i

abbrev addresses : ℕ → Bytes
addresses i = home

two_backups : IsNumbered 2 ids
two_backups = record {
  some_backup = omega arith;
  fits = λ i h. omega (arith, h);
  distinct = λ i j h k apart. ground (arith, apart);
  first = λ i h other. ground (arith, other);
}

-- The first backup reads the vote of the second, the second reads that of the first, and the first
-- reads its own.
abbrev once : Ring
once = after_round 2 ids addresses 0 (vote_of 2 ids addresses 1) [] (start 2 ids addresses)

abbrev twice : Ring
twice =
    after_round 2 ids addresses 1 (vote_of 2 ids addresses 0) (vote_of 2 ids addresses 0 ∷ []) once

abbrev elected_ring : Ring
elected_ring = after_round 2 ids addresses 0 (vote_of 2 ids addresses 0) [] twice

elected-Reach : Reach 2 ids addresses elected_ring
unfolding my_vote build_packet
elected-Reach =
    next
      (next (next here (round 0 (vote_of 2 ids addresses 1) [] (omega arith) refl refl)) (
        round 1 (vote_of 2 ids addresses 0) (vote_of 2 ids addresses 0 ∷ []) (omega arith) refl
          refl))
      (round 0 (vote_of 2 ids addresses 0) [] (omega arith) refl refl)

Reach-first_master_example : elected_ring.is_master 1 ≡ false
Reach-first_master_example =
    Reach-first_master 2 ids addresses two_backups elected_ring 1 elected-Reach (omega arith)

-- The first has become the master.
elected_first : elected_ring.is_master 0 ≡ true
unfolding my_vote build_packet
elected_first = refl

-- The two backups take turns.
abbrev turns : ℕ → ℕ
turns t = t % 2

turns-Serves : Serves 2 turns
turns-Serves = ((λ t. omega arith), (λ j t h. ((t + j) % 2, omega (arith, h))))

run-is_master_example : (t : ℕ) × ((run 2 ids addresses turns t).is_master 0 ≡ true)
run-is_master_example = run-is_master 2 ids addresses two_backups turns turns-Serves

vote_step-round_example : Follows world 2 ids addresses 1 (vote_of 2 ids addresses 0) voter [] []
unfolding write_packet header my_vote build_packet
vote_step-round_example =
    vote_step-round world 2 ids addresses 1 (vote_of 2 ids addresses 0) (vote_of 2 ids addresses 0)
      voter [] [] 30 refl refl (inl refl) refl refl
