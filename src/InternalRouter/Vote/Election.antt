-- ===== src/InternalRouter/Vote/Election.antt =====
-- All the votes at once: the loop `while (voting)` of every backup of a ring, in
-- `server/comms/router/internal_router.cpp`, with the packets that are on their way. Backup `i` reads
-- from backup `i - 1` and writes to backup `i + 1`; the last writes to the first. What a backup sends
-- and when it leaves the loop is as in `vote_step`, where no connection fails.
pub mod Safety
pub mod Running
pub mod Progress
pub mod Refinement
pub mod Schedule
use dropbox_ufrgs_sisop.Prelude.{
  ℕ, suc, ◌-◌, ◌<◌, ◌≡◌, List, [], ◌∷◌, ◌++◌, Bool, true, false, ◌==◌, if◌then◌else◌, not,
}
use dropbox_ufrgs_sisop.Bytes.{Bytes}
use dropbox_ufrgs_sisop.Packet.{Packet}
use dropbox_ufrgs_sisop.InternalRouter.Vote.{my_vote}
use dropbox_ufrgs_sisop.InternalRouter.Vote.Reply.{reply, wins}

-- The packets that each backup has yet to read, the backups that are in the loop, and those that
-- have become masters.
pub record Ring : Type 0 where
  pub inbox : ℕ → List Packet
  pub voting : ℕ → Bool
  pub is_master : ℕ → Bool

-- The backups have the ids `ids i` and the addresses `addresses i`, for `i` below `n`.
module _ (n : ℕ) (ids : ℕ → ℕ) (addresses : ℕ → Bytes) where
  abbrev pub vote_of : ℕ → Packet
  vote_of i = my_vote (ids i) (addresses i)

  -- The neighbours of a backup.
  abbrev pub next_of : ℕ → ℕ
  next_of i = if suc i == n then 0 else suc i

  abbrev pub previous_of : ℕ → ℕ
  previous_of i = if i == 0 then n - 1 else i - 1

  -- Each backup has sent its own vote.
  abbrev pub start : Ring
  start = record {
    inbox = λ i. vote_of (previous_of i) ∷ [];
    voting = λ i. true;
    is_master = λ i. false;
  }

  -- What backup `i` sends for a packet.
  abbrev pub sent : ℕ → Packet → List Packet
  sent i p =
      if p.seqn == 1
      then vote_of i ∷ []
      else if p.seqn == 0
      then reply (vote_of i) (ids i) p ∷ []
      else []

  -- Whether it becomes the master, and whether it leaves the loop.
  abbrev pub elected : ℕ → Packet → Bool
  elected i p = if p.seqn == 0 then wins (ids i) p else false

  abbrev pub leaves : ℕ → Packet → Bool
  leaves i p = if p.seqn == 1 then true else elected i p

  -- The ring after backup `i` has read a packet, with `rest` still to read.
  abbrev pub after_round : ℕ → Packet → List Packet → Ring → Ring
  after_round i p rest r = record {
    inbox = λ k. (if k == i then rest else r.inbox k) ++ (if k == next_of i then sent i p else []);
    voting = λ k. if k == i then not (leaves i p) else r.voting k;
    is_master =
        λ k. if k == i then (if elected i p then true else r.is_master k) else r.is_master k;
  }

  -- Any backup that is in the loop may read its next packet.
  pub data Step : Ring → Ring → Type 0 where
    round :
        {r : Ring} (i : ℕ) (p : Packet) (rest : List Packet)
        → i < n
        → r.voting i ≡ true
        → r.inbox i ≡ p ∷ rest
        → Step r (after_round i p rest r)

  pub data Reach : Ring → Type 0 where
    here : Reach start
    next : {r t : Ring} → Reach r → Step r t → Reach t

  -- What may still happen to a ring.
  pub data Steps : Ring → Ring → Type 0 where
    stop : {r : Ring} → Steps r r
    step : {r t u : Ring} → Step r t → Steps t u → Steps r u
