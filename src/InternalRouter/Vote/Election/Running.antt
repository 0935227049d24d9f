-- ===== src/InternalRouter/Vote/Election/Running.antt =====
-- Where the vote of the first backup stands after each round.
use dropbox_ufrgs_sisop.Prelude.{
  ℕ, suc, zero, ◌-◌, ◌<◌, ◌≡◌, ◌≢◌, ◌⊎◌, inl, inr, refl, List, [], ◌∷◌, ◌++◌, length, true, false,
  ◌==◌, if◌then◌else◌, arith, Bool-cases, subst, sym, ap, ◌∙◌, none, some, get_elem?,
}
use dropbox_ufrgs_sisop.Bytes.{Bytes}
use dropbox_ufrgs_sisop.Packet.{Packet, build_packet}
use dropbox_ufrgs_sisop.InternalRouter.Vote.{my_vote}
use dropbox_ufrgs_sisop.InternalRouter.Vote.Election.{
  Ring, vote_of, next_of, sent, elected, after_round,
}
use dropbox_ufrgs_sisop.InternalRouter.Vote.Election.Safety.{
  IsNumbered, IsFair, Answers-IsOnWay, sent-vote_of, elected-vote_of, AllOnWay,
}

abbrev pub AllRunning : List Packet → Type 0
AllRunning [] = Unit
AllRunning (p ∷ packets) = (p.seqn ≡ 0) × AllRunning packets

AllRunning-append : (ps qs : List Packet) → AllRunning ps → AllRunning qs → AllRunning (ps ++ qs)
AllRunning-append [] qs v w = w
AllRunning-append (p ∷ ps) qs v w = (v.0, AllRunning-append ps qs v.1 w)

get_elem?-append :
    {A : Type 0} (xs ys : List A) (i : ℕ) (a : A)
    → get_elem? xs i ≡ some a
    → get_elem? (xs ++ ys) i ≡ some a
get_elem?-append [] ys i a h = absurd cc
get_elem?-append (x ∷ xs) ys zero a h = h
get_elem?-append (x ∷ xs) ys (suc i) a h = get_elem?-append xs ys i a h

get_elem?-last :
    {A : Type 0} (xs : List A) (a : A) → get_elem? (xs ++ (a ∷ [])) (length xs) ≡ some a
get_elem?-last [] a = refl
get_elem?-last (x ∷ xs) a = get_elem?-last xs a

module _ (n : ℕ) (ids : ℕ → ℕ) (addresses : ℕ → Bytes) (numbered : IsNumbered n ids) where
  -- Nobody has left the loop, and the vote of the first backup is at a position of an inbox.
  pub record IsRunning (r : Ring) : Type 0 where
    pub in_loop : (j : ℕ) → j < n → r.voting j ≡ true
    pub running : (j : ℕ) → j < n → AllRunning (r.inbox j)
    pub place : ℕ
    pub place_inside : place < n
    pub position : ℕ
    pub first_vote : get_elem? (r.inbox place) position ≡ some (vote_of n ids addresses 0)

  -- The rounds that the vote needs to come back, not counting the packets in front of it.
  abbrev pub hops : ℕ → ℕ
  hops k = if k == 0 then 0 else n - k

  -- The vote is further on its way.
  abbrev pub Further : {r t : Ring} → IsRunning r → IsRunning t → Type 0
  Further v w = (hops w.place < hops v.place) ⊎ ((w.place ≡ v.place) × (w.position < v.position))

  -- The vote has not moved.
  abbrev pub Stays : {r t : Ring} → IsRunning r → IsRunning t → Type 0
  Stays v w = (w.place ≡ v.place) × (w.position ≡ v.position)

  -- A packet that is read and elects nobody is answered by a running vote.
  sent-AllRunning :
      (i : ℕ) (p : Packet)
      → p.seqn ≡ 0
      → elected n ids addresses i p ≡ false
      → AllRunning (sent n ids addresses i p)
  unfolding my_vote build_packet
  sent-AllRunning i p running lost = ground (arith, running, lost)

  passes_on :
      (i : ℕ)
      → i < n
      → elected n ids addresses i (vote_of n ids addresses 0) ≡ false
      → (i ≢ 0)
        × (sent n ids addresses i (vote_of n ids addresses 0) ≡ vote_of n ids addresses 0 ∷ [])
  passes_on i h lost =
      let other : i ≢ 0 = λ e. ground (
        arith,
        elected-vote_of n ids addresses numbered i 0 numbered.some_backup,
        lost,
        ap ids e,
      ) in
      (
        other,
        ground (
          arith,
          sent-vote_of n ids addresses numbered i 0 numbered.some_backup,
          numbered.first i h other,
        ),
      )

  -- A place and a position of the vote of the first backup, further on if backup `i` had it, and the
  -- same if not.
  abbrev Found : (r t : Ring) → IsRunning r → ℕ → Type 0
  Found r t v i =
      (place position : ℕ) × (place < n)
      × (get_elem? (t.inbox place) position ≡ some (vote_of n ids addresses 0))
      × (i ≡ v.place → (hops place < hops v.place) ⊎ ((place ≡ v.place) × (position < v.position)))
      × (i ≢ v.place → (place ≡ v.place) × (position ≡ v.position))

  self : (k : ℕ) → (k == k) ≡ true
  self k = ground arith

  pub next_inside : (i : ℕ) → i < n → next_of n ids addresses i < n
  next_inside i h = ground arith

  next_hops : (i : ℕ) → i < n → i ≢ 0 → hops (next_of n ids addresses i) < hops i
  next_hops i h other = ground arith

  -- Backup `i` has read the vote itself, or a packet in front of it.
  Found-own :
      (r : Ring) (v : IsRunning r) (i : ℕ) (p : Packet) (rest : List Packet) (m : ℕ)
      → i < n
      → v.place ≡ i
      → v.position ≡ m
      → get_elem? (p ∷ rest) m ≡ some (vote_of n ids addresses 0)
      → elected n ids addresses i p ≡ false
      → Found r (after_round n ids addresses i p rest r) v i
  Found-own r v i p rest zero h own front e lost =
      let same : p ≡ vote_of n ids addresses 0 = ap (λ o. elim o [ none ↦ p | some q ↦ q ]) e in
      let (other, passed) =
        passes_on i h (subst (λ q. elected n ids addresses i q ≡ false) same lost) in
      let sends : sent n ids addresses i p ≡ vote_of n ids addresses 0 ∷ [] =
        ap (sent n ids addresses i) same ∙ passed in
      let k : ℕ = next_of n ids addresses i in
      (
        k,
        length (if k == i then rest else r.inbox k),
        next_inside i h,
        rw (self k, sends)
            (get_elem?-last (if k == i then rest else r.inbox k) (vote_of n ids addresses 0)),
        (λ _. inl (subst (λ x. hops k < hops x) (sym own) (next_hops i h other))),
        (λ apart. absurd (apart (sym own))),
      )
  Found-own r v i p rest (suc m) h own front e lost = (
    i,
    m,
    h,
    rw (self i) (get_elem?-append rest _ m (vote_of n ids addresses 0) e),
    (λ _. inr (sym own, omega (arith, front))),
    (λ apart. absurd (apart (sym own))),
  )

  Found-again :
      (r : Ring) (v : IsRunning r) (i : ℕ) (p : Packet) (rest : List Packet)
      → i < n
      → r.inbox i ≡ p ∷ rest
      → elected n ids addresses i p ≡ false
      → Found r (after_round n ids addresses i p rest r) v i
  Found-again r v i p rest h here_p lost = elim (Bool-cases (v.place == i)) [
    | inl own ↦
        let same : v.place ≡ i = ground arith in
        Found-own r v i p rest v.position h same refl
          (ap (λ l. get_elem? l v.position) (sym here_p)
            ∙ ap (λ k. get_elem? (r.inbox k) v.position) (sym same)
            ∙ v.first_vote)
          lost
    | inr other ↦ (
      v.place,
      v.position,
      v.place_inside,
      rw other (
          get_elem?-append (r.inbox v.place) _ v.position (vote_of n ids addresses 0) v.first_vote),
      (λ e. absurd (ground (arith, e))),
      (λ _. (refl, refl)),
    )
  ]

  -- A round either elects the first backup or leaves the vote running.
  pub goes_on :
      (r : Ring) (i : ℕ) (p : Packet) (rest : List Packet)
      → IsFair n ids addresses numbered r
      → (v : IsRunning r) → i < n
      → r.inbox i ≡ p ∷ rest
      → ((after_round n ids addresses i p rest r).is_master 0 ≡ true)
        ⊎ ((w : IsRunning (after_round n ids addresses i p rest r)) × (i ≡ v.place → Further v w)
            × (i ≢ v.place → Stays v w))
  goes_on r i p rest fair v h here_p =
      let mine = subst (AllOnWay n ids addresses numbered i) here_p (fair.on_way i h) in
      let alive : AllRunning (p ∷ rest) = subst AllRunning here_p (v.running i h) in
      elim (Bool-cases (elected n ids addresses i p)) [
        | inl won ↦
            let first : i ≡ 0 =
              (Answers-IsOnWay n ids addresses numbered i p h mine.0).only_first won in
            inl (ground (arith, won, first))
        | inr lost ↦
            let kept : (j : ℕ) → j < n → AllRunning (if j == i then rest else r.inbox j) = λ j k.
              elim (Bool-cases (j == i)) [
                | inl own ↦ rw own alive.1
                | inr other ↦ rw other (v.running j k)
              ] in
            let added : (j : ℕ)
                → AllRunning
                    (if j == next_of n ids addresses i then sent n ids addresses i p else []) =
              λ j. elim (Bool-cases (j == next_of n ids addresses i)) [
                | inl own ↦ rw own (sent-AllRunning i p alive.0 lost)
                | inr other ↦ rw other tt
              ] in
            let (place, position, inside, found, further, stays) =
              Found-again r v i p rest h here_p lost in
            inr (
              record {
                in_loop = λ j k. ground (arith, v.in_loop j k, alive.0, lost);
                running = λ j k. AllRunning-append _ _ (kept j k) (added j);
                place = place;
                place_inside = inside;
                position = position;
                first_vote = found;
              },
              further,
              stays,
            )
      ]
