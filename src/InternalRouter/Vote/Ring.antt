-- ===== src/InternalRouter/Vote/Ring.antt =====
-- A vote that goes once round the ring of backups.
use dropbox_ufrgs_sisop.Prelude.Outcome.Laws.{bind_assoc}
use dropbox_ufrgs_sisop.Prelude.Int.{pos, ltb_ℤ, ◌==ℤ◌, to_int}
use dropbox_ufrgs_sisop.Socket.{write_packet}
use dropbox_ufrgs_sisop.Prelude.Outcome.{bind, done}
use dropbox_ufrgs_sisop.PacketType.{code, vote}
use dropbox_ufrgs_sisop.Os.{Os}
use Prim.Native.Nat.{min}
use dropbox_ufrgs_sisop.Packet.{Packet, build_packet}
use dropbox_ufrgs_sisop.Bytes.{Bytes}
use dropbox_ufrgs_sisop.Prelude.{
  ℕ, ◌≡◌, refl, ◌^◌, List, [], ◌∷◌, arith, true, false, ap, ◌<◌, ◌∙◌, ◌≢◌, ◌≤◌, sym, Bool, lt→ltb,
  ltb, if◌then◌else◌, ◌&&◌, Bool-cases, inl, inr,
}
use dropbox_ufrgs_sisop.InternalRouter.Vote.{my_vote, Voter, vote_step, count_vote, win}
use dropbox_ufrgs_sisop.InternalRouter.Vote.Reply.{reply, wins}

-- A backup in the ring: its id, and its address as the votes carry it.
abbrev pub Backup : Type 0
Backup = ℕ × Bytes

-- Whether `m` is smaller than each id.
abbrev pub smallest : ℕ → List Backup → Bool
smallest m [] = true
smallest m ((id, _) ∷ rest) = ltb m id && smallest m rest

module _ (os : Os) where
  -- A round of the loop of the backup with this id on the packet `p` writes `q` and does nothing else.
  abbrev pub Passes : ℕ → Bytes → Packet → Packet → Type 0
  Passes id ip_port p q =
      (v : Voter) (s : os.State)
      → vote_step os (my_vote id ip_port) (record v { id = id }) p s
        ≡ bind (write_packet os v.client_socket q s) (λ _. done (record v { id = id }, true))

  -- The backups pass on a packet, one after the other, and `q` is what the last of them writes.
  abbrev pub Lap : List Backup → Packet → Packet → Type 0
  Lap [] p q = p ≡ q
  Lap ((id, ip_port) ∷ rest) p q = (m : Packet) × Passes id ip_port p m × Lap rest m q

-- The ids differ from `m`.
abbrev pub Apart : ℕ → List Backup → Type 0
Apart m [] = Unit
Apart m ((id, _) ∷ rest) = (m ≢ id) × Apart m rest

-- The ids are distinct and fit an `int`.
abbrev pub IsRing : List Backup → Type 0
IsRing [] = Unit
IsRing ((id, _) ∷ rest) = (id < 2 ^ 31) × Apart id rest × IsRing rest

-- A vote that is under way for `m`.
record Runs (m : ℕ) (p : Packet) : Type 0 where
  typed : p.type ≡ code vote
  running : p.seqn ≡ 0
  counted : p.total_size ≡ m
  fits : m < 2 ^ 31

reply_lost :
    (mine : Packet) (id : ℕ) (p : Packet)
    → wins id p ≡ false
    → reply mine id p ≡ (if ltb_ℤ (pos id) (to_int p.total_size) then mine else p)
reply_lost mine id p lost = rw lost refl

reply-Runs :
    (id m : ℕ) (ip_port : Bytes) (p : Packet)
    → id < 2 ^ 31
    → m ≢ id
    → Runs m p
    → Runs (min m id) (reply (my_vote id ip_port) id p)
unfolding my_vote build_packet
reply-Runs id m ip_port p small apart v = ground arith

wins-Runs : (id m : ℕ) (p : Packet) → Runs m p → m ≢ id → wins id p ≡ false
wins-Runs id m p v apart = ground arith

Apart-min : (m id : ℕ) (rest : List Backup) → Apart m rest → Apart id rest → Apart (min m id) rest
Apart-min m id [] a b = tt
Apart-min m id ((k, _) ∷ rest) a b = (λ e. ground (arith, a.0, b.0), Apart-min m id rest a.1 b.1)

-- The smallest of `m` and the ids.
abbrev least : ℕ → List Backup → ℕ
least m [] = m
least m ((id, _) ∷ rest) = least (min m id) rest

least-le : (m : ℕ) (ring : List Backup) → least m ring ≤ m
least-le m [] = omega arith
least-le m ((id, _) ∷ rest) = omega (arith, least-le (min m id) rest)

least-smallest : (m : ℕ) (ring : List Backup) → smallest m ring ≡ true → least m ring ≡ m
least-smallest m [] b = refl
least-smallest m ((id, _) ∷ rest) b =
    ap (λ k. least k rest) (ground (arith, b)) ∙ least-smallest m rest (ground (arith, b))

smallest-least :
    (m : ℕ) (ring : List Backup) → Apart m ring → least m ring ≡ m → smallest m ring ≡ true
smallest-least m [] a e = refl
smallest-least m ((id, _) ∷ rest) a e =
    let smaller : m < id = omega (arith, least-le (min m id) rest, a.0) in
    let same : min m id ≡ m = omega arith in
    let others : smallest m rest ≡ true =
      smallest-least m rest a.1 (ap (λ k. least k rest) (sym same) ∙ e) in
    rw (lt→ltb m id smaller) others

module _ (os : Os) where
  vote_step-running :
      (mine p : Packet) (v : Voter) (s : os.State) (m : ℕ)
      → Runs m p
      → vote_step os mine v p s ≡ count_vote os mine v p s
  unfolding vote_step
  vote_step-running mine p v s m r = rw (r.typed, r.running) refl

  count_vote-sent :
      (mine p : Packet) (v : Voter) (s : os.State) (b : Bool)
      → wins v.id p ≡ false
      → ltb_ℤ (pos v.id) (to_int p.total_size) ≡ b
      → count_vote os mine v p s
        ≡ bind (write_packet os v.client_socket (if b then mine else p) s) (λ _. done (v, true))
  unfolding count_vote
  count_vote-sent mine p v s true lost greater =
      rw (lost, greater) (bind_assoc (write_packet os v.client_socket mine s) _ _)
  count_vote-sent mine p v s false lost less =
      rw (lost, less) (bind_assoc (write_packet os v.client_socket p s) _ _)

  count_vote-won :
      (mine p : Packet) (v : Voter) (s : os.State)
      → wins v.id p ≡ true
      → count_vote os mine v p s ≡ win os v p s
  unfolding count_vote
  count_vote-won mine p v s won = rw won refl

  -- A running vote that is not the receiver's own is answered by one packet.
  vote_step-Passes :
      (id m : ℕ) (ip_port : Bytes) (p : Packet)
      → Runs m p
      → wins id p ≡ false
      → Passes os id ip_port p (reply (my_vote id ip_port) id p)
  vote_step-Passes id m ip_port p r lost v s =
      vote_step-running (my_vote id ip_port) p (record v { id = id }) s m r
      ∙ count_vote-sent (my_vote id ip_port) p (record v { id = id }) s _ lost refl
      ∙ ap
          (λ q. bind (write_packet os v.client_socket q s) (λ _. done (record v { id = id }, true)))
          (sym (reply_lost (my_vote id ip_port) id p lost))

  run-Lap :
      (m : ℕ) (p : Packet) (ring : List Backup)
      → Runs m p
      → Apart m ring
      → IsRing ring
      → (q : Packet) × Lap os ring p q × Runs (least m ring) q
  run-Lap m p [] v a r = (p, refl, v)
  run-Lap m p ((id, ip_port) ∷ rest) v a r =
      let next : Packet = reply (my_vote id ip_port) id p in
      let (q, lap, end) =
        run-Lap (min m id) next rest (reply-Runs id m ip_port p r.0 a.0 v)
          (Apart-min m id rest a.1 r.1) r.2 in
      (q, (next, vote_step-Passes id m ip_port p v (wins-Runs id m p v a.0), lap), end)

  own_round :
      (m k : ℕ) (ip_port : Bytes) (q : Packet) (b : Bool)
      → Runs k q
      → m < 2 ^ 31
      → k ≤ m
      → (pos m ==ℤ to_int q.total_size) ≡ b
      → (v : Voter) (s : os.State)
      → vote_step os (my_vote m ip_port) (record v { id = m }) q s ≡ (
          if b
          then win os (record v { id = m }) q s
          else bind (write_packet os v.client_socket q s) (λ _. done (record v { id = m }, true)))
  own_round m k ip_port q true r small below own v s =
      vote_step-running (my_vote m ip_port) q (record v { id = m }) s k r
      ∙ count_vote-won (my_vote m ip_port) q (record v { id = m }) s own
  own_round m k ip_port q false r small below lost v s =
      let less : ltb_ℤ (pos m) (to_int q.total_size) ≡ false = ground (arith, r.counted, r.fits) in
      vote_step-running (my_vote m ip_port) q (record v { id = m }) s k r
      ∙ count_vote-sent (my_vote m ip_port) q (record v { id = m }) s false lost less

  -- In a ring of backups whose ids are distinct and fit an `int`, the vote that a backup starts goes
  -- round: each of the others, in turn, answers what it reads by writing one packet and stays in its
  -- loop. On the packet that comes back the round of the backup is that of a winner exactly if its id is
  -- the smallest; otherwise it writes the packet on and stays in the loop.
  pub Lap-wins :
      (m : ℕ) (ip_port : Bytes) (ring : List Backup)
      → m < 2 ^ 31
      → Apart m ring
      → IsRing ring
      → (q : Packet) × Lap os ring (my_vote m ip_port) q
        × ((v : Voter) (s : os.State)
            → vote_step os (my_vote m ip_port) (record v { id = m }) q s ≡ (
                if smallest m ring
                then win os (record v { id = m }) q s
                else bind
                    (write_packet os v.client_socket q s)
                    (λ _. done (record v { id = m }, true))))
  unfolding my_vote build_packet
  Lap-wins m ip_port ring small a r =
      let (q, lap, end) = run-Lap m (my_vote m ip_port) ring start a r in
      (
        q,
        lap,
        own_round m (least m ring) ip_port q (smallest m ring) end small (least-le m ring)
            (own q end),
      )
    where
      start : Runs m (my_vote m ip_port)
      start = record { typed = refl; running = refl; counted = refl; fits = small }

      own : (q : Packet) → Runs (least m ring) q → (pos m ==ℤ to_int q.total_size) ≡ smallest m ring
      own q end = elim (Bool-cases (smallest m ring)) [
        | inl is_least ↦
            rw is_least (ground (arith, end.counted, end.fits, least-smallest m ring is_least))
        | inr greater ↦
            let differ : least m ring ≢ m =
              λ e. absurd (ground (arith, greater, smallest-least m ring a e)) in
            rw greater (ground (arith, end.counted, end.fits, differ))
      ]
