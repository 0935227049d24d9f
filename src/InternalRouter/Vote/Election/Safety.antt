-- ===== src/InternalRouter/Vote/Election/Safety.antt =====
-- Who can be elected. The backups are numbered from the one with the smallest id.
use dropbox_ufrgs_sisop.Prelude.{
  ℕ, suc, ◌<◌, ◌≡◌, ◌≢◌, ◌⊎◌, ◌^◌, inl, inr, refl, List, [], ◌∷◌, ◌++◌, true, false, ◌==◌,
  if◌then◌else◌, arith, Bool-cases, subst, sym, ap, ltb, ◌≤◌,
}
use dropbox_ufrgs_sisop.Bytes.{Bytes}
use dropbox_ufrgs_sisop.Packet.{Packet, build_packet}
use dropbox_ufrgs_sisop.InternalRouter.Vote.{my_vote}
use dropbox_ufrgs_sisop.InternalRouter.Vote.Election.{
  Ring, vote_of, next_of, previous_of, start, sent, elected, Step, round, Reach, here, next,
}

-- The ids fit an `int`, and the first is smaller than the others, which are distinct.
pub record IsNumbered (n : ℕ) (ids : ℕ → ℕ) : Type 0 where
  pub some_backup : 0 < n
  pub fits : (i : ℕ) → i < n → ids i < 2 ^ 31
  pub distinct : (i j : ℕ) → i < n → j < n → i ≢ j → ids i ≢ ids j
  pub first : (i : ℕ) → i < n → i ≢ 0 → ids 0 < ids i

module _ (n : ℕ) (ids : ℕ → ℕ) (addresses : ℕ → Bytes) (numbered : IsNumbered n ids) where
  -- A packet on its way to backup `j` is the vote of a backup before `j`, or of any if `j` is the
  -- first, or the announcement of the first.
  abbrev pub IsOnWay : ℕ → Packet → Type 0
  IsOnWay j p =
      ((i : ℕ) × (i < n) × (p ≡ vote_of n ids addresses i) × ((j ≡ 0) ⊎ (i < j)))
      ⊎ (p ≡ record (vote_of n ids addresses 0) { seqn = 1 })

  abbrev pub AllOnWay : ℕ → List Packet → Type 0
  AllOnWay j [] = Unit
  AllOnWay j (p ∷ packets) = IsOnWay j p × AllOnWay j packets

  AllOnWay-append :
      (j : ℕ) (ps qs : List Packet) → AllOnWay j ps → AllOnWay j qs → AllOnWay j (ps ++ qs)
  AllOnWay-append j [] qs v w = w
  AllOnWay-append j (p ∷ ps) qs v w = (v.0, AllOnWay-append j ps qs v.1 w)

  -- What a backup sends for a packet that is on its way to it, and whether it is elected.
  pub record Answers (i : ℕ) (p : Packet) : Type 0 where
    pub goes_on : AllOnWay (next_of n ids addresses i) (sent n ids addresses i p)
    pub only_first : elected n ids addresses i p ≡ true → i ≡ 0

  on_from : (i k : ℕ) → k ≤ i → (next_of n ids addresses i ≡ 0) ⊎ (k < next_of n ids addresses i)
  on_from i k h = elim (Bool-cases (suc i == n)) [
    | inl last ↦ inl (rw last)
    | inr other ↦ inr (rw other (omega arith))
  ]

  -- A vote is answered by the comparison of two ids.
  pub sent-vote_of :
      (i k : ℕ)
      → k < n
      → sent n ids addresses i (vote_of n ids addresses k) ≡ (
          if ids i == ids k
          then record (vote_of n ids addresses k) { seqn = 1 } ∷ []
          else if ltb (ids i) (ids k)
          then vote_of n ids addresses i ∷ []
          else vote_of n ids addresses k ∷ [])
  unfolding my_vote build_packet
  sent-vote_of i k l = ground (arith, numbered.fits k l)

  pub elected-vote_of :
      (i k : ℕ) → k < n → elected n ids addresses i (vote_of n ids addresses k) ≡ (ids i == ids k)
  unfolding my_vote build_packet
  elected-vote_of i k l = ground (arith, numbered.fits k l)

  own-Answers : (k : ℕ) → k < n → k ≡ 0 → Answers k (vote_of n ids addresses k)
  own-Answers k l zero_k =
      let same : (ids k == ids k) ≡ true = ground arith in
      record {
        goes_on =
            rw (sent-vote_of k k l, same)
              (inr (ap (λ j. record (vote_of n ids addresses j) { seqn = 1 }) zero_k), tt);
        only_first = λ _. zero_k;
      }

  other-Answers :
      (i k : ℕ) → i < n → k < n → i ≢ k → (i ≡ 0) ⊎ (k < i) → Answers i (vote_of n ids addresses k)
  other-Answers i k h l apart place =
      let differ : (ids i == ids k) ≡ false = ground (arith, numbered.distinct i k h l apart) in
      record {
        goes_on =
            rw (sent-vote_of i k l, differ)
              (elim (Bool-cases (ltb (ids i) (ids k))) [
                | inl smaller ↦ rw smaller (inl (i, h, refl, on_from i i (omega arith)), tt)
                | inr greater ↦
                    rw greater (
                      inl (k, l, refl, on_from i k (ground (arith, place, numbered.first k l))),
                      tt,
                    )
              ]);
        only_first = λ e. absurd (ground (arith, elected-vote_of i k l, differ, e));
      }

  announcement-Answers :
      (i : ℕ) → i < n → Answers i (record (vote_of n ids addresses 0) { seqn = 1 })
  announcement-Answers i h = record {
    goes_on = (inl (i, h, refl, on_from i i (omega arith)), tt);
    only_first = λ e. absurd (ground (arith, e));
  }

  pub Answers-IsOnWay : (i : ℕ) (p : Packet) → i < n → IsOnWay i p → Answers i p
  Answers-IsOnWay i p h (inl (k, l, e, place)) = elim (Bool-cases (i == k)) [
    | inl own ↦
        let same : i ≡ k = ground arith in
        subst (Answers i) (sym e) (
          subst (λ j. Answers j (vote_of n ids addresses k)) (sym same)
            (own-Answers k l (ground (arith, place, same))))
    | inr other ↦ subst (Answers i) (sym e) (other-Answers i k h l (ground arith) place)
  ]
  Answers-IsOnWay i p h (inr e) = subst (Answers i) (sym e) (announcement-Answers i h)

  names_first :
      (j : ℕ) (p : Packet)
      → IsOnWay j p
      → p.seqn ≡ 1
      → p.payload ≡ (vote_of n ids addresses 0).payload
  unfolding my_vote build_packet
  names_first j p (inl (k, l, e, place)) ended =
      absurd (ground (arith, ap (λ (q : Packet). q.seqn) e, ended))
  names_first j p (inr e) ended = ap (λ q. q.payload) e

  -- What holds of the ring at any time.
  pub record IsFair (r : Ring) : Type 0 where
    pub on_way : (j : ℕ) → j < n → AllOnWay j (r.inbox j)
    pub first_master : (j : ℕ) → r.is_master j ≡ true → j ≡ 0

  start-IsFair : IsFair (start n ids addresses)
  start-IsFair = record {
    on_way = λ j h. (
      inl (previous_of n ids addresses j, ground (arith, numbered.some_backup), refl, ground arith),
      tt,
    );
    first_master = λ j e. absurd cc;
  }

  pub Step-IsFair : {r t : Ring} → Step n ids addresses r t → IsFair r → IsFair t
  Step-IsFair {r} (round i p rest h on here_p) v =
      let mine : IsOnWay i p × AllOnWay i rest = subst (AllOnWay i) here_p (v.on_way i h) in
      let answers : Answers i p = Answers-IsOnWay i p h mine.0 in
      let kept : (j : ℕ) → j < n → AllOnWay j (if j == i then rest else r.inbox j) = λ j k.
        elim (Bool-cases (j == i)) [
          | inl own ↦
              let same : j ≡ i = ground arith in
              rw own (subst (λ x. AllOnWay x rest) (sym same) mine.1)
          | inr other ↦ rw other (v.on_way j k)
        ] in
      let added : (j : ℕ)
          → AllOnWay j (if j == next_of n ids addresses i then sent n ids addresses i p else []) =
        λ j. elim (Bool-cases (j == next_of n ids addresses i)) [
          | inl own ↦
              let same : j ≡ next_of n ids addresses i = ground arith in
              rw own (subst (λ x. AllOnWay x (sent n ids addresses i p)) (sym same) answers.goes_on)
          | inr other ↦ rw other tt
        ] in
      record {
        on_way = λ j k. AllOnWay-append j _ _ (kept j k) (added j);
        first_master = λ j e. ground (arith, v.first_master j, answers.only_first, e);
      }

  pub Reach-IsFair : {r : Ring} → Reach n ids addresses r → IsFair r
  Reach-IsFair here = start-IsFair
  Reach-IsFair (next r s) = Step-IsFair s (Reach-IsFair r)

  -- However the votes of all the backups interleave, no backup but the one with the smallest id
  -- becomes the master. The ids are distinct and fit an `int`, and the backups are numbered along the
  -- ring from the one with the smallest.
  pub Reach-first_master :
      (r : Ring) (j : ℕ) → Reach n ids addresses r → j ≢ 0 → r.is_master j ≡ false
  Reach-first_master r j reach other = elim (Bool-cases (r.is_master j)) [
    | inl master ↦ absurd (other ((Reach-IsFair reach).first_master j master))
    | inr not_master ↦ not_master
  ]

  -- Every announcement that a backup is about to read names the address of the backup with the
  -- smallest id.
  pub Reach-announcement :
      (r : Ring) (j : ℕ) (p : Packet) (rest : List Packet)
      → Reach n ids addresses r
      → j < n
      → r.inbox j ≡ p ∷ rest
      → p.seqn ≡ 1
      → p.payload ≡ (vote_of n ids addresses 0).payload
  Reach-announcement r j p rest reach h e ended =
      names_first j p (subst (AllOnWay j) e ((Reach-IsFair reach).on_way j h)).0 ended
