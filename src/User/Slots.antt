-- ===== src/User/Slots.antt =====
-- The slots of one user: how many are taken, and which of them the loops of the server reach. Those
-- loops run over the first `get_active_connections_count()` slots.
use dropbox_ufrgs_sisop.Socket.{Socket}
use dropbox_ufrgs_sisop.Prelude.{
  ℕ, zero, suc, ◌+◌, ◌≡◌, refl, List, [], ◌∷◌, arith, ◌≢◌, none, ◌⊎◌, some, ◌<◌, inl, Bool-cases,
  if◌then◌else◌, length, ◌==◌, inr, ap, ◌≤◌, sym, ◌↔◌, ◌∙◌,
}
use dropbox_ufrgs_sisop.User.{push_slot, count_active}

-- An open connection takes one more slot, if there is a free one; there is none exactly if all the
-- slots are taken.
pub push_slot-count :
    (c : Socket) (xs : List Socket)
    → c.sockfd ≢ 0
    → ((push_slot (length xs) c xs ≡ none) × (count_active (length xs) xs ≡ length xs))
      ⊎ ((ys : List Socket) × (push_slot (length xs) c xs ≡ some ys)
          × (length ys ≡ length xs)
          × (count_active (length ys) ys ≡ count_active (length xs) xs + 1)
          × (count_active (length xs) xs < length xs))
unfolding push_slot count_active
push_slot-count c [] h = inl (refl, refl)
push_slot-count c (x ∷ xs) h = elim (push_slot-count c xs h) [
  | inl full ↦ elim (Bool-cases (x.sockfd == 0)) [
    | inl free ↦ inr (c ∷ xs, rw free, refl, ground (arith, full.1), ground (arith, full.1))
    | inr taken ↦ inl (rw (taken, full.0), rw (taken, full.1))
  ]
  | inr (ys, pushed, sizes, counts, room) ↦ elim (Bool-cases (x.sockfd == 0)) [
    | inl free ↦ inr (c ∷ xs, rw free, refl, ground arith, ground arith)
    | inr taken ↦ inr (x ∷ ys, rw (taken, pushed), ap suc sizes, ground arith, ground arith)
  ]
]

-- The sockets that a loop over the active count serves.
abbrev pub served : ℕ → List Socket → List Socket
served zero xs = []
served (suc k) [] = []
served (suc k) (x ∷ xs) = if x.sockfd == 0 then served k xs else x ∷ served k xs

-- All the sockets that are open.
abbrev pub open_sockets : List Socket → List Socket
open_sockets xs = served (length xs) xs

-- No slot in front of an open socket is free.
abbrev pub IsCompact : List Socket → Type 0
IsCompact [] = Unit
IsCompact (x ∷ xs) = ((x.sockfd ≡ 0) → open_sockets xs ≡ []) × IsCompact xs

length-served-le : (k : ℕ) (xs : List Socket) → length (served k xs) ≤ k
length-served-le zero xs = omega arith
length-served-le (suc k) [] = omega arith
length-served-le (suc k) (x ∷ xs) = ground (arith, length-served-le k xs)

length-open_sockets : (xs : List Socket) → length (open_sockets xs) ≡ count_active (length xs) xs
unfolding count_active
length-open_sockets [] = refl
length-open_sockets (x ∷ xs) = ground (arith, length-open_sockets xs)

eq-nil_of_length : {xs : List Socket} → length xs ≡ 0 → xs ≡ []
eq-nil_of_length {xs = []} h = refl
eq-nil_of_length {xs = x ∷ xs} h = absurd (omega arith)

IsCompact-of_closed : (xs : List Socket) → open_sockets xs ≡ [] → IsCompact xs
IsCompact-of_closed [] h = tt
IsCompact-of_closed (x ∷ xs) h = elim (Bool-cases (x.sockfd == 0)) [
  | inl free ↦
      let closed : open_sockets xs ≡ [] = ground arith in
      ((λ _. closed), IsCompact-of_closed xs closed)
  | inr taken ↦ absurd (ground arith)
]

-- What a loop over the active count reaches, and the open sockets, for an array.
abbrev pub reached : List Socket → List Socket
reached xs = served (count_active (length xs) xs) xs

-- Behind a free slot a loop over the active count can reach all open sockets only if there is none.
closed-of_reached :
    (m : ℕ) (x : Socket) (xs : List Socket)
    → x.sockfd ≡ 0
    → count_active (length xs) xs ≡ m
    → served m (x ∷ xs) ≡ open_sockets xs
    → open_sockets xs ≡ []
closed-of_reached zero x xs free counted e = sym e
closed-of_reached (suc m) x xs free counted e =
    let short : served m xs ≡ open_sockets xs = ground arith in
    absurd (omega (arith, ap length short, length-served-le m xs, length-open_sockets xs))

IsCompact-of_reached : (xs : List Socket) → reached xs ≡ open_sockets xs → IsCompact xs
unfolding count_active
IsCompact-of_reached [] h = tt
IsCompact-of_reached (x ∷ xs) h = elim (Bool-cases (x.sockfd == 0)) [
  | inl free ↦
      let zero_fd : x.sockfd ≡ 0 = ground arith in
      let closed : open_sockets xs ≡ [] =
        closed-of_reached (count_active (length xs) xs) x xs zero_fd refl (ground arith) in
      ((λ _. closed), IsCompact-of_closed xs closed)
  | inr taken ↦ ((λ free. absurd (ground arith)), IsCompact-of_reached xs (ground arith))
]

reached-of_IsCompact : (xs : List Socket) → IsCompact xs → reached xs ≡ open_sockets xs
unfolding count_active
reached-of_IsCompact [] h = refl
reached-of_IsCompact (x ∷ xs) h = elim (Bool-cases (x.sockfd == 0)) [
  | inl free ↦
      let closed : open_sockets xs ≡ [] = h.0 (ground arith) in
      let none_left : count_active (length xs) xs ≡ 0 =
        omega (arith, ap length closed, length-open_sockets xs) in
      ground arith
  | inr taken ↦ ground (arith, reached-of_IsCompact xs h.1)
]

-- A loop over as many slots as are taken, with the count made once and no slot changed meanwhile, serves
-- every open connection of a user exactly if no slot in front of an open connection is free.
pub reached_iff_IsCompact : (xs : List Socket) → (reached xs ≡ open_sockets xs) ↔ IsCompact xs
reached_iff_IsCompact xs = (IsCompact-of_reached xs, reached-of_IsCompact xs)

count_active-le : (k : ℕ) (xs : List Socket) → count_active k xs ≤ k
unfolding count_active
count_active-le zero xs = omega arith
count_active-le (suc k) [] = omega arith
count_active-le (suc k) (x ∷ xs) = ground (arith, count_active-le k xs)

-- Where all slots are taken, none is found.
pub push_slot_full :
    (k : ℕ) (c : Socket) (xs : List Socket) → count_active k xs ≡ k → push_slot k c xs ≡ none
unfolding push_slot count_active
push_slot_full zero c xs h = refl
push_slot_full (suc k) c [] h = refl
push_slot_full (suc k) c (x ∷ xs) h = ground (arith, push_slot_full k c xs, count_active-le k xs)

-- The same for an array with `k` slots.
pub push_slot_cases :
    (k : ℕ) (c : Socket) (xs : List Socket)
    → length xs ≡ k
    → c.sockfd ≢ 0
    → ((push_slot k c xs ≡ none) × (count_active k xs ≡ k))
      ⊎ ((ys : List Socket) × (push_slot k c xs ≡ some ys)
          × (length ys ≡ k)
          × (count_active k ys ≡ count_active k xs + 1)
          × (count_active k xs < k))
push_slot_cases k c xs size h = elim (push_slot-count c xs h) [
  | inl (refused, full) ↦ inl (rw (← size) refused, rw (← size) full)
  | inr (ys, pushed, sizes, counts, room) ↦ inr (
    ys,
    rw (← size) pushed,
    sizes ∙ size,
    ap (λ k. count_active k ys) (sym (sizes ∙ size))
        ∙ counts
        ∙ ap (λ k. count_active k xs + 1) size,
    rw (← size) room,
  )
]
