-- ===== src/Manager/Broadcast/Reach.antt =====
-- Whom the loops of the manager reach.
use dropbox_ufrgs_sisop.User.Slots.{served, IsCompact, open_sockets, reached_iff_IsCompact}
use dropbox_ufrgs_sisop.User.{count_active}
use dropbox_ufrgs_sisop.Packet.{Packet}
use dropbox_ufrgs_sisop.Socket.{Socket, close_connection, write_packet}
use dropbox_ufrgs_sisop.Os.{Os}
use dropbox_ufrgs_sisop.Prelude.{
  ℕ, zero, suc, List, [], ◌∷◌, ◌≡◌, refl, true, false, ◌≢◌, arith, Bool-cases, length, ◌==◌, inl,
  ltb, ◌∙◌, ap, inr,
}
use dropbox_ufrgs_sisop.Prelude.Outcome.Laws.{bind_assoc, bind_congr}
use dropbox_ufrgs_sisop.Prelude.Outcome.{done, M, bind}
use dropbox_ufrgs_sisop.Manager.Broadcast.{send_slots, close_slots}

module _ (os : Os) where
  -- A packet to each socket of a list, in order.
  abbrev pub send_all : List Socket → Packet → M os.State (Unit {0})
  send_all [] p s = done tt s
  send_all (x ∷ xs) p s = bind (write_packet os x p s) (λ _. send_all xs p)

  -- The inner loop of `broadcast` writes to the served sockets.
  pub send_slots-served :
      (k : ℕ) (xs : List Socket) (p : Packet) (s : os.State)
      → send_slots os k xs p s ≡ send_all (served k xs) p s
  unfolding send_slots
  send_slots-served zero xs p s = refl
  send_slots-served (suc k) [] p s = refl
  send_slots-served (suc k) (x ∷ xs) p s = elim (Bool-cases (x.sockfd == 0)) [
    | inl free ↦
        let skipped : ltb 0 x.sockfd ≡ false = ground arith in
        rw (skipped, free) (send_slots-served k xs p s)
    | inr taken ↦
        let written : ltb 0 x.sockfd ≡ true = ground arith in
        rw (written, taken)
          (bind_assoc (write_packet os x p s) _ _
            ∙ bind_congr (write_packet os x p s) _ _ (λ _ t. send_slots-served k xs p t))
  ]

  -- The loop of `close_all_connections` counts anew what it has just closed: of two open connections
  -- of a user it closes the first and leaves the second open.
  pub close_slots_two :
      (a b : Socket) (s : os.State)
      → a.sockfd ≢ 0
      → b.sockfd ≢ 0
      → close_slots os 0 [] (a ∷ b ∷ []) s
        ≡ done (record a { sockfd = 0 } ∷ b ∷ []) (os.close s a.sockfd)
  unfolding close_slots close_connection count_active
  close_slots_two a b s h k = ground arith

  -- `broadcast` reaches every open connection of a user, whose array of slots is `xs`, if no slot in
  -- front of an open one is free.
  pub send_slots-IsCompact :
      (xs : List Socket) (p : Packet) (s : os.State)
      → IsCompact xs
      → send_slots os (count_active (length xs) xs) xs p s ≡ send_all (open_sockets xs) p s
  send_slots-IsCompact xs p s h =
      send_slots-served (count_active (length xs) xs) xs p s
      ∙ ap (λ ys. send_all ys p s) ((reached_iff_IsCompact xs).1 h)

  -- After the first of two connections has gone, `broadcast` writes to no one: the free slot in front
  -- hides the connection that is left.
  pub send_slots_gap :
      (a b : Socket) (p : Packet) (s : os.State)
      → a.sockfd ≡ 0
      → b.sockfd ≢ 0
      → send_slots os (count_active 2 (a ∷ b ∷ [])) (a ∷ b ∷ []) p s ≡ done tt s
  unfolding send_slots count_active
  send_slots_gap a b p s h k = ground arith
