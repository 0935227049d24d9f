-- ===== src/Manager/Users/Ownership.antt =====
-- Which arrays the users own, before and after each operation.
use dropbox_ufrgs_sisop.Packet.{header_size}
use dropbox_ufrgs_sisop.User.Slots.{push_slot_cases}
use dropbox_ufrgs_sisop.Manager.Users.Limits.{
  Owned, Apart, array-set_self, array-set_ne, Owned-find_user,
}
use dropbox_ufrgs_sisop.Manager.{Server, max_connections_per_user}
use dropbox_ufrgs_sisop.Bytes.{Bytes, bytes_lt}
use dropbox_ufrgs_sisop.Socket.{Socket, copy}
use dropbox_ufrgs_sisop.Manager.Users.{add_user, insert_user, Users, add_connection, find_user}
use dropbox_ufrgs_sisop.Os.{Os}
use dropbox_ufrgs_sisop.User.{Heap, new_user, User, array, push_connection}
use dropbox_ufrgs_sisop.Prelude.{
  ℕ, List, [], ◌∷◌, ◌≡◌, refl, length, ◌<◌, Option-cases, ◌++◌, ◌≢◌, Bool-cases, arith,
  get_elem?-append_left, set, inl, length-append, length-set, ap, inr, ◌==◌, sym, ◌∙◌,
  get_elem?-append_length,
}

Owned-set :
    (heap : Heap) (i : ℕ) (ys : List Socket) (users : Users)
    → length ys ≡ max_connections_per_user
    → Owned heap users
    → Owned (set heap i ys) users
Owned-set heap i ys [] size o = tt
Owned-set heap i ys ((key, v) ∷ users) size o = (
  omega (arith, length-set heap i ys, o.0),
  o.1,
  elim (Bool-cases (i == v.connections)) [
    | inl hit ↦
        let same : i ≡ v.connections = ground arith in
        ap length (
          ap (λ k. array (set heap k ys) v.connections) same
          ∙ array-set_self heap v.connections ys o.0)
        ∙ size
    | inr miss ↦ ap length (array-set_ne heap i v.connections ys (ground arith)) ∙ o.2
  ],
  o.3,
  Owned-set heap i ys users size o.4,
)

-- If each user has an array of its own, with `MAX_CONNECTIONS_PER_USER` slots, then this is so
-- after `add_connection` of an open connection, whether the user is known and has a free slot or
-- not.
pub add_connection-Owned :
    (os : Os) (name : Bytes) (c : Socket) (w : Server os)
    → c.sockfd ≢ 0
    → Owned w.heap w.users
    → Owned (add_connection os name c w).0.heap (add_connection os name c w).0.users
unfolding add_connection push_connection copy
add_connection-Owned os name c w h owned = elim (Option-cases (find_user name w.users)) [
  | inl unknown ↦ rw (unknown, add_connection) owned
  | inr (u, known) ↦
      let (inside, max, size) = Owned-find_user w.heap name u w.users owned known in
      elim (push_slot_cases u.max_connections (copy (os.garbage w.state header_size) c)
        (array w.heap u.connections) (size ∙ sym max) h) [
          | inl (refused, full) ↦ rw (known, add_connection) (rw (refused, push_connection) owned)
          | inr (ys, pushed, sizes, counts, room) ↦
              rw (known, add_connection)
                (rw (pushed, push_connection)
                  (Owned-set w.heap u.connections ys w.users (sizes ∙ max) owned))
        ]
]

array-append :
    (heap : Heap) (xs : List Socket) (i : ℕ)
    → i < length heap
    → array (heap ++ (xs ∷ [])) i ≡ array heap i
array-append heap xs i h = rw (get_elem?-append_left heap (xs ∷ []) i h, array)

array-append_length :
    (heap : Heap) (xs : List Socket) → array (heap ++ (xs ∷ [])) (length heap) ≡ xs
array-append_length heap xs = rw (get_elem?-append_length heap xs, array)

Owned-append :
    (heap : Heap) (xs : List Socket) (users : Users)
    → Owned heap users
    → Owned (heap ++ (xs ∷ [])) users
Owned-append heap xs [] o = tt
Owned-append heap xs ((key, v) ∷ users) o = (
  omega (arith, length-append heap (xs ∷ []), o.0),
  o.1,
  ap length (array-append heap xs v.connections o.0) ∙ o.2,
  o.3,
  Owned-append heap xs users o.4,
)

Apart-length : (heap : Heap) (users : Users) → Owned heap users → Apart (length heap) users
Apart-length heap [] o = tt
Apart-length heap ((key, v) ∷ users) o = (omega (arith, o.0), Apart-length heap users o.4)

Apart-insert_user :
    (i : ℕ) (name : Bytes) (u : User) (users : Users)
    → i ≢ u.connections
    → Apart i users
    → Apart i (insert_user name u users)
unfolding insert_user
Apart-insert_user i name u [] h a = (h, tt)
Apart-insert_user i name u ((key, v) ∷ users) h a = elim (Bool-cases (bytes_lt name key)) [
  | inl before ↦ rw before (h, (a.0, a.1))
  | inr after ↦ rw after (a.0, Apart-insert_user i name u users h a.1)
]

Owned-insert_user :
    (heap : Heap) (name : Bytes) (u : User) (users : Users)
    → u.connections < length heap
    → u.max_connections ≡ max_connections_per_user
    → length (array heap u.connections) ≡ max_connections_per_user
    → Apart u.connections users
    → Owned heap users
    → Owned heap (insert_user name u users)
unfolding insert_user
Owned-insert_user heap name u [] inside max size a o = (inside, max, size, tt, tt)
Owned-insert_user heap name u ((key, v) ∷ users) inside max size a o =
    elim (Bool-cases (bytes_lt name key)) [
      | inl before ↦ rw before (inside, max, size, a, o)
      | inr after ↦ rw after (
        o.0,
        o.1,
        o.2,
        Apart-insert_user v.connections name u users (λ e. a.0 (sym e)) o.3,
        Owned-insert_user heap name u users inside max size a.1 o.4,
      )
    ]

-- If each user has an array of its own, with `MAX_CONNECTIONS_PER_USER` slots, then this is so
-- after `add_user`, whether the user is new or known.
pub add_user-Owned :
    (os : Os) (name : Bytes) (w : Server os)
    → Owned w.heap w.users
    → Owned (add_user os name w).0.heap (add_user os name w).0.users
unfolding add_user new_user
add_user-Owned os name w o = elim (Option-cases (find_user name w.users)) [
  | inl fresh ↦
      rw (fresh, add_user)
        (Owned-insert_user _ name _ w.users (omega (arith, length-append w.heap _)) refl
          (ap length (array-append_length w.heap _)) (Apart-length w.heap w.users o)
          (Owned-append w.heap _ w.users o))
  | inr (u, known) ↦ rw (known, add_user) o
]
