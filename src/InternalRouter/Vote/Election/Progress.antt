-- ===== src/InternalRouter/Vote/Election/Progress.antt =====
-- What may still happen to a vote.
use dropbox_ufrgs_sisop.Prelude.{
  ℕ, suc, zero, ◌<◌, ◌≤◌, ◌≡◌, ◌⊎◌, inl, inr, refl, List, [], ◌∷◌, true, arith, subst, sym, ap,
  some, get_elem?,
}
use dropbox_ufrgs_sisop.Bytes.{Bytes}
use dropbox_ufrgs_sisop.Packet.{Packet}
use dropbox_ufrgs_sisop.InternalRouter.Vote.Election.{
  Ring, vote_of, next_of, previous_of, start, after_round, Step, round, Reach, here, next, Steps,
  stop, step,
}
use dropbox_ufrgs_sisop.InternalRouter.Vote.Election.Safety.{
  IsNumbered, IsFair, Step-IsFair, Reach-IsFair,
}
use dropbox_ufrgs_sisop.InternalRouter.Vote.Election.Running.{IsRunning, hops, goes_on, next_inside}
use dropbox_ufrgs_sisop.InternalRouter.Vote.Reply.{my_vote-seqn}

module _ (n : ℕ) (ids : ℕ → ℕ) (addresses : ℕ → Bytes) (numbered : IsNumbered n ids) where
  pub start-IsRunning : IsRunning n ids addresses numbered (start n ids addresses)
  start-IsRunning = record {
    in_loop = λ j h. refl;
    running = λ j h. (vote_seqn (previous_of n ids addresses j), tt);
    place = next_of n ids addresses 0;
    place_inside = next_inside n ids addresses numbered 0 numbered.some_backup;
    position = 0;
    first_vote = ap (λ k. some (vote_of n ids addresses k)) back;
  }
    where
      vote_seqn : (k : ℕ) → (vote_of n ids addresses k).seqn ≡ 0
      vote_seqn k = my_vote-seqn (ids k) (addresses k)

      back : previous_of n ids addresses (next_of n ids addresses 0) ≡ 0
      back = ground (arith, numbered.some_backup)

  Alive : Ring → Type 0
  Alive r = (r.is_master 0 ≡ true) ⊎ IsRunning n ids addresses numbered r

  Reach-Alive : {r : Ring} → Reach n ids addresses r → Alive r
  unfolding Alive
  Reach-Alive here = inr start-IsRunning
  Reach-Alive (next {r} reach (round i p rest h on here_p)) = elim (Reach-Alive reach) [
    | inl elected_before ↦ inl (ground (arith, elected_before))
    | inr v ↦
        elim (goes_on n ids addresses numbered r i p rest
          (Reach-IsFair n ids addresses numbered reach) v h here_p) [
            | inl now ↦ inl now
            | inr (w, further, _) ↦ inr w
          ]
  ]

  -- The first backup can still be elected.
  abbrev pub Elects : Ring → Type 0
  Elects r = (t : Ring) × Steps n ids addresses r t × (t.is_master 0 ≡ true)

  read_next :
      (packets : List Packet) (m : ℕ) (q : Packet)
      → get_elem? packets m ≡ some q
      → (p : Packet) × (rest : List Packet) × (packets ≡ p ∷ rest)
  read_next [] m q h = absurd cc
  read_next (p ∷ rest) m q h = (p, rest, refl)

  elect_near :
      (a : ℕ)
      → ((r : Ring)
          → IsFair n ids addresses numbered r
          → (v : IsRunning n ids addresses numbered r) → hops n ids addresses numbered v.place < a
          → Elects r)
      → (b : ℕ) (r : Ring) → IsFair n ids addresses numbered r
      → (v : IsRunning n ids addresses numbered r) → hops n ids addresses numbered v.place ≤ a
      → v.position < b
      → Elects r
  elect_near a fewer zero r fair v near front = absurd (omega (arith, front))
  elect_near a fewer (suc b) r fair v near front =
      let (p, rest, here_p) = read_next (r.inbox v.place) v.position _ v.first_vote in
      let s : Step n ids addresses r (after_round n ids addresses v.place p rest r) =
        round v.place p rest v.place_inside (v.in_loop v.place v.place_inside) here_p in
      let fair_then = Step-IsFair n ids addresses numbered s fair in
      elim (goes_on n ids addresses numbered r v.place p rest fair v v.place_inside here_p) [
        | inl now ↦ (_, step s stop, now)
        | inr (w, further, _) ↦ elim (further refl) [
          | inl nearer ↦
              let (t, path, won) = fewer _ fair_then w (omega (arith, nearer, near)) in
              (t, step s path, won)
          | inr (same, ahead) ↦
              let (t, path, won) =
                elect_near a fewer b _ fair_then w
                  (subst (λ k. hops n ids addresses numbered k ≤ a) (sym same) near)
                  (omega (arith, ahead, front)) in
              (t, step s path, won)
        ]
      ]

  elect :
      (a : ℕ) (r : Ring)
      → IsFair n ids addresses numbered r
      → (v : IsRunning n ids addresses numbered r) → hops n ids addresses numbered v.place ≤ a
      → Elects r
  elect zero r fair v near =
      elect_near zero (λ r fair v l. absurd (omega (arith, l))) (suc v.position) r fair v near
        (omega arith)
  elect (suc a) r fair v near =
      elect_near (suc a) (λ r fair v l. elect a r fair v (omega (arith, l))) (suc v.position) r fair
        v near (omega arith)

  -- Whatever the backups have read so far, the vote is not stuck: some further rounds make the backup
  -- with the smallest id the master, if it is not the master already.
  pub Reach-Elects : (r : Ring) → Reach n ids addresses r → Elects r
  unfolding Alive
  Reach-Elects r reach = elim (Reach-Alive reach) [
    | inl already ↦ (r, stop, already)
    | inr v ↦
        elect (hops n ids addresses numbered v.place) r
          (Reach-IsFair n ids addresses numbered reach) v (omega arith)
  ]
