-- ===== src/InternalRouter/Succession/Context.antt =====
-- The addresses that a backup has heard of, and the list that it hands to its router as a new master.
use mathlib.Core.List.{Perm, perm_middle}
use mathlib.Core.List.Perm
use dropbox_ufrgs_sisop.Prelude.{
  List, [], ◌∷◌, ◌++◌, sym, subst, append_assoc, inl, inr, Bool-cases,
}
use dropbox_ufrgs_sisop.Bytes.{Bytes, bytes_eq, bytes_lt}
use dropbox_ufrgs_sisop.InternalRouter.Vote.Start.{context_of}
use dropbox_ufrgs_sisop.InternalRouter.Backup.{add_address}

-- One more address.
pub context_of-add_address :
    (name addr : Bytes) (users : List (Bytes × List Bytes))
    → Perm (context_of (add_address name addr users)) (addr ∷ context_of users)
unfolding add_address context_of
context_of-add_address name addr [] = Perm.rfl
context_of-add_address name addr ((key, addrs) ∷ users) = elim (Bool-cases (bytes_eq name key)) [
  | inl same ↦ rw same (
      subst (λ x. Perm x (addr ∷ (addrs ++ context_of users)))
        (sym (append_assoc addrs (addr ∷ []) (context_of users)))
        (perm_middle addrs (context_of users)))
  | inr other ↦ elim (Bool-cases (bytes_lt name key)) [
    | inl before ↦ rw (other, before) Perm.rfl
    | inr behind ↦
        rw (other, behind)
          (Perm.trans (Perm.append_left addrs (context_of-add_address name addr users))
            (perm_middle addrs (context_of users)))
  ]
]

-- The users of a backup after it has heard of logins, each a name with an address.
abbrev pub heard : List (Bytes × Bytes) → List (Bytes × List Bytes) → List (Bytes × List Bytes)
heard [] users = users
heard ((name, addr) ∷ logins) users = heard logins (add_address name addr users)

abbrev pub addresses_of : List (Bytes × Bytes) → List Bytes
addresses_of [] = []
addresses_of ((name, addr) ∷ logins) = addr ∷ addresses_of logins

pub context_of-heard :
    (logins : List (Bytes × Bytes)) (users : List (Bytes × List Bytes))
    → Perm (context_of (heard logins users)) (addresses_of logins ++ context_of users)
context_of-heard [] users = Perm.rfl
context_of-heard ((name, addr) ∷ logins) users =
    Perm.trans (context_of-heard logins (add_address name addr users)) (
      Perm.trans (Perm.append_left (addresses_of logins) (context_of-add_address name addr users))
        (perm_middle (addresses_of logins) (context_of users)))
