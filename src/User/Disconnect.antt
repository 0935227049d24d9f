-- ===== src/User/Disconnect.antt =====
-- What `disconnect` does to the slots of a user.
use dropbox_ufrgs_sisop.Prelude.{
  ℕ, ◌≡◌, ◌≢◌, ◌+◌, ◌⊎◌, inl, inr, refl, List, [], ◌∷◌, none, some, length, arith, Bool-cases, ◌==◌,
  ap, suc,
}
use dropbox_ufrgs_sisop.Prelude.Outcome.{done, bind}
use dropbox_ufrgs_sisop.Os.{Os}
use dropbox_ufrgs_sisop.Socket.{Socket, close_connection}
use dropbox_ufrgs_sisop.User.{count_active, disconnect_slot}

-- No slot has this descriptor.
abbrev pub Absent : ℕ → List Socket → Type 0
Absent fd [] = Unit
Absent fd (x ∷ xs) = (x.sockfd ≢ fd) × Absent fd xs

-- `disconnect` of an open descriptor closes it and frees one slot, if a slot has it; otherwise no
-- slot has it, and nothing is closed.
pub disconnect_slot-count :
    (os : Os) (fd : ℕ) (xs : List Socket) (s : os.State)
    → fd ≢ 0
    → ((disconnect_slot os (length xs) fd xs s ≡ done none s) × Absent fd xs)
      ⊎ ((ys : List Socket) × (disconnect_slot os (length xs) fd xs s
            ≡ done (some ys) (os.close s fd))
          × (length ys ≡ length xs)
          × (count_active (length xs) ys + 1 ≡ count_active (length xs) xs))
unfolding disconnect_slot close_connection count_active
disconnect_slot-count os fd [] s h = inl (refl, tt)
disconnect_slot-count os fd (x ∷ xs) s h = elim (Bool-cases (x.sockfd == fd)) [
  | inl hit ↦
      let same : x.sockfd ≡ fd = ground arith in
      inr (
        record x { sockfd = 0 } ∷ xs,
        rw (hit, bind) (ap (λ k. done (some (record x { sockfd = 0 } ∷ xs)) (os.close s k)) same),
        refl,
        ground (arith, same),
      )
  | inr miss ↦ elim (disconnect_slot-count os fd xs s h) [
    | inl (missing, absent) ↦ inl (rw miss (rw (missing, bind)), ((λ e. ground arith), absent))
    | inr (ys, closed, sizes, counts) ↦
        inr (x ∷ ys, rw miss (rw (closed, bind)), ap suc sizes, ground (arith, counts))
  ]
]
