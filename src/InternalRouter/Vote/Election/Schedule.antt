-- ===== src/InternalRouter/Vote/Election/Schedule.antt =====
-- The vote under a scheduler that lets one backup after the other look for a packet.
use dropbox_ufrgs_sisop.Prelude.{
  ℕ, suc, zero, ◌+◌, ◌<◌, ◌≤◌, ◌≡◌, ◌≢◌, ◌⊎◌, ◌∙◌, ◌==◌, inl, inr, refl, List, [], ◌∷◌, true, arith,
  subst, sym, ap, some, get_elem?, if◌then◌else◌, Bool-cases,
}
use dropbox_ufrgs_sisop.Bytes.{Bytes}
use dropbox_ufrgs_sisop.Packet.{Packet}
use dropbox_ufrgs_sisop.InternalRouter.Vote.Election.{
  Ring, vote_of, start, after_round, round, Reach, here, next,
}
use dropbox_ufrgs_sisop.InternalRouter.Vote.Election.Safety.{
  IsNumbered, IsFair, Step-IsFair, Reach-IsFair,
}
use dropbox_ufrgs_sisop.InternalRouter.Vote.Election.Running.{
  IsRunning, Further, Stays, hops, goes_on,
}
use dropbox_ufrgs_sisop.InternalRouter.Vote.Election.Progress.{start-IsRunning}

-- Every backup is let in again and again.
abbrev pub Serves : ℕ → (ℕ → ℕ) → Type 0
Serves n schedule =
    ((t : ℕ) → schedule t < n) × ((j t : ℕ) → j < n → (d : ℕ) × (schedule (t + d) ≡ j))

module _ (n : ℕ) (ids : ℕ → ℕ) (addresses : ℕ → Bytes) where
  -- Backup `i` with these packets to read.
  abbrev pub read_turn : ℕ → List Packet → Ring → Ring
  read_turn i [] r = r
  read_turn i (p ∷ rest) r = after_round n ids addresses i p rest r

  -- A backup that has left the loop, or has no packet to read, changes nothing.
  unfoldable pub turn : ℕ → Ring → Ring
  turn i r = if r.voting i then read_turn i (r.inbox i) r else r

  -- The ring after the first turns of a schedule.
  unfoldable pub run : (ℕ → ℕ) → ℕ → Ring
  run schedule zero = start n ids addresses
  run schedule (suc t) = turn (schedule t) (run schedule t)

  read_turn-Reach :
      (i : ℕ) (r : Ring) (packets : List Packet)
      → i < n
      → Reach n ids addresses r
      → r.voting i ≡ true
      → r.inbox i ≡ packets
      → Reach n ids addresses (read_turn i packets r)
  read_turn-Reach i r [] h reach on here_p = reach
  read_turn-Reach i r (p ∷ rest) h reach on here_p = next reach (round i p rest h on here_p)

  turn-Reach :
      (i : ℕ) (r : Ring) → i < n → Reach n ids addresses r → Reach n ids addresses (turn i r)
  unfolding turn
  turn-Reach i r h reach = elim (Bool-cases (r.voting i)) [
    | inl on ↦ rw on (read_turn-Reach i r (r.inbox i) h reach on refl)
    | inr off ↦ rw off reach
  ]

  -- What a schedule makes of the ring is a state that the interleavings can reach.
  pub run-Reach :
      (schedule : ℕ → ℕ) (t : ℕ)
      → ((t : ℕ) → schedule t < n)
      → Reach n ids addresses (run schedule t)
  unfolding run
  run-Reach schedule zero inside = here
  run-Reach schedule (suc t) inside =
      turn-Reach (schedule t) (run schedule t) (inside t) (run-Reach schedule t inside)

module _ (n : ℕ) (ids : ℕ → ℕ) (addresses : ℕ → Bytes) (numbered : IsNumbered n ids) where
  -- A vote that is under way.
  record Goes (r : Ring) : Type 0 where
    fair : IsFair n ids addresses numbered r
    vote : IsRunning n ids addresses numbered r

  abbrev Advances : {r t : Ring} → Goes r → Goes t → Type 0
  Advances v w = Further n ids addresses numbered v.vote w.vote

  -- What a turn of backup `i` makes of it.
  abbrev After : (i : ℕ) (r t : Ring) → Goes r → Type 0
  After i r t v =
      (t.is_master 0 ≡ true)
      ⊎ ((w : Goes t) × (i ≡ v.vote.place → Advances v w)
          × (i ≢ v.vote.place → Stays n ids addresses numbered v.vote w.vote))

  read_turn-After :
      (i : ℕ) (r : Ring) (packets : List Packet) (v : Goes r)
      → i < n
      → r.inbox i ≡ packets
      → After i r (read_turn n ids addresses i packets r) v
  read_turn-After i r [] v h here_p = inr (v, (λ own. absurd (no_packet own)), (λ _. (refl, refl)))
    where
      no_packet : i ≡ v.vote.place → ⊥
      no_packet own =
          let lost : get_elem? [] v.vote.position ≡ some (vote_of n ids addresses 0) =
            ap (λ l. get_elem? l v.vote.position) (sym here_p)
            ∙ ap (λ k. get_elem? (r.inbox k) v.vote.position) own
            ∙ v.vote.first_vote in
          cc
  read_turn-After i r (p ∷ rest) v h here_p =
      elim (goes_on n ids addresses numbered r i p rest v.fair v.vote h here_p) [
        | inl now ↦ inl now
        | inr (w, further, stays) ↦ inr (
          record {
            fair =
                Step-IsFair n ids addresses numbered (round i p rest h (v.vote.in_loop i h) here_p)
                  v.fair;
            vote = w;
          },
          further,
          stays,
        )
      ]

  turn-After : (i : ℕ) (r : Ring) (v : Goes r) → i < n → After i r (turn n ids addresses i r) v
  unfolding turn
  turn-After i r v h =
      let reads : turn n ids addresses i r ≡ read_turn n ids addresses i (r.inbox i) r =
        rw (v.vote.in_loop i h) refl in
      subst (λ x. After i r x v) (sym reads) (read_turn-After i r (r.inbox i) v h refl)

  Stays-Advances :
      {r s t : Ring} (v : Goes r) (w : Goes s) (x : Goes t)
      → Stays n ids addresses numbered v.vote w.vote
      → Advances w x
      → Advances v x
  Stays-Advances v w x (same, front) (inl nearer) = inl (
      subst (λ k. hops n ids addresses numbered x.vote.place < hops n ids addresses numbered k) same
        nearer)
  Stays-Advances v w x (same, front) (inr (there, ahead)) =
      inr (there ∙ same, subst (λ k. x.vote.position < k) front ahead)

  module _ (schedule : ℕ → ℕ) (serves : Serves n schedule) where
    -- The first backup is elected at some turn.
    abbrev Elected : Type 0
    Elected = (u : ℕ) × ((run n ids addresses schedule u).is_master 0 ≡ true)

    -- The vote has advanced at a later turn.
    abbrev Later : (t : ℕ) → Goes (run n ids addresses schedule t) → Type 0
    Later t v = (u : ℕ) × (w : Goes (run n ids addresses schedule u)) × Advances v w

    wait_for :
        (d t : ℕ) (v : Goes (run n ids addresses schedule t))
        → schedule (t + d) ≡ v.vote.place
        → Elected ⊎ Later t v
    unfolding run
    wait_for zero t v served =
        elim (turn-After (schedule t) (run n ids addresses schedule t) v (serves.0 t)) [
          | inl now ↦ inl (suc t, now)
          | inr (w, further, _) ↦ inr (suc t, w, further (ap schedule (omega arith) ∙ served))
        ]
    wait_for (suc d) t v served =
        elim (turn-After (schedule t) (run n ids addresses schedule t) v (serves.0 t)) [
          | inl now ↦ inl (suc t, now)
          | inr (w, further, stays) ↦ elim (Bool-cases (schedule t == v.vote.place)) [
            | inl own ↦ inr (suc t, w, further (ground arith))
            | inr other ↦
                let same : Stays n ids addresses numbered v.vote w.vote = stays (ground arith) in
                elim (wait_for d (suc t) w (ap schedule (omega arith) ∙ served ∙ sym same.0)) [
                  | inl now ↦ inl now
                  | inr (u, x, on) ↦ inr (u, x, Stays-Advances v w x same on)
                ]
          ]
        ]

    elect_near :
        (a : ℕ)
        → ((t : ℕ) (v : Goes (run n ids addresses schedule t))
            → hops n ids addresses numbered v.vote.place < a
            → Elected)
        → (b t : ℕ) (v : Goes (run n ids addresses schedule t))
        → hops n ids addresses numbered v.vote.place ≤ a
        → v.vote.position < b
        → Elected
    elect_near a fewer zero t v near front = absurd (omega (arith, front))
    elect_near a fewer (suc b) t v near front =
        let (d, served) = serves.1 v.vote.place t v.vote.place_inside in
        elim (wait_for d t v served) [
          | inl now ↦ now
          | inr (u, w, inl nearer) ↦ fewer u w (omega (arith, nearer, near))
          | inr (u, w, inr (same, ahead)) ↦
              elect_near a fewer b u w
                (subst (λ k. hops n ids addresses numbered k ≤ a) (sym same) near)
                (omega (arith, ahead, front))
        ]

    elect :
        (a t : ℕ) (v : Goes (run n ids addresses schedule t))
        → hops n ids addresses numbered v.vote.place ≤ a
        → Elected
    elect zero t v near =
        elect_near zero (λ t v l. absurd (omega (arith, l))) (suc v.vote.position) t v near
          (omega arith)
    elect (suc a) t v near =
        elect_near (suc a) (λ t v l. elect a t v (omega (arith, l))) (suc v.vote.position) t v near
          (omega arith)

    -- Under every schedule that lets each backup in again and again, the vote ends: after some number
    -- of turns the backup with the smallest id is the master. The ids are distinct and fit an `int`,
    -- the backups are numbered along the ring from the one with the smallest, and a backup that has
    -- left the loop or finds no packet changes nothing when it is let in.
    pub run-is_master : (t : ℕ) × ((run n ids addresses schedule t).is_master 0 ≡ true)
    unfolding run
    run-is_master = elect (hops n ids addresses numbered started.vote.place) 0 started (omega arith)
      where
        started : Goes (run n ids addresses schedule 0)
        started = record {
          fair = Reach-IsFair n ids addresses numbered here;
          vote = start-IsRunning n ids addresses numbered;
        }
