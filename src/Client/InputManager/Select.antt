-- ===== src/Client/InputManager/Select.antt =====
-- The tests of a round, and a selection of one block by the command.
use dropbox_ufrgs_sisop.Prelude.{
  ◌≡◌, refl, subst, sym, List, [], ◌∷◌, false, if◌then◌else◌, Bool-cases, inl, inr, arith,
}
use dropbox_ufrgs_sisop.Prelude.Outcome.Laws.{bind-done}
use dropbox_ufrgs_sisop.Prelude.Outcome.{done, M, bind}
use dropbox_ufrgs_sisop.Bytes.{Bytes, bytes_eq, bytes_eq-eq}
use dropbox_ufrgs_sisop.Text.{text}
use dropbox_ufrgs_sisop.Os.{Os}
use dropbox_ufrgs_sisop.PacketType.{
  code, stop_server_req, logout_req, download_req, delete_req, list_req,
}
use dropbox_ufrgs_sisop.Client.State.{Client}
use dropbox_ufrgs_sisop.Client.InputManager.{
  Draft, with_argument, on_command, get_sync_dir, upload_command, delete_command, draft_of,
}

module _ (os : Os) where
  abbrev pub Block : Type 0
  Block = Draft → M (Client os) Draft

  -- The commands with their blocks.
  abbrev pub blocks : Bytes → Bytes → List (Bytes × Block)
  blocks base_path arg =
      (text "get_sync_dir", get_sync_dir os base_path)
      ∷ (text "stop", λ d. done (record d { packet_type = code stop_server_req; running = false }))
      ∷ (text "exit", λ d. done (record d { packet_type = code logout_req; running = false }))
      ∷ (text "upload", upload_command os arg)
      ∷ (text "download", λ d. done (with_argument (code download_req) arg d))
      ∷ (text "delete_safe", λ d. done (with_argument (code delete_req) arg d))
      ∷ (text "delete", delete_command os base_path arg)
      ∷ (
        text "list_server",
        λ d. done (record d { packet_type = code list_req; size = 1; buf = 0 ∷ [] }),
      )
      ∷ (text "list_client", λ d. done (record d { remote = false }))
      ∷ []

  -- The block of a command, or none.
  abbrev pub select : Bytes → List (Bytes × Block) → Block
  select command [] = done
  select command ((name, block) ∷ rest) =
      if bytes_eq command name then block else select command rest

  -- All blocks, each behind its test.
  abbrev sequence : Bytes → List (Bytes × Block) → Block
  sequence command [] d c = done d c
  sequence command ((name, block) ∷ rest) d c =
      bind (on_command os name command block d c) (λ d. sequence command rest d)

  -- The command is none of these.
  abbrev Misses : Bytes → List (Bytes × Block) → Type 0
  Misses command [] = Unit
  Misses command ((name, _) ∷ rest) = (bytes_eq command name ≡ false) × Misses command rest

  abbrev Distinct : List (Bytes × Block) → Type 0
  Distinct [] = Unit
  Distinct ((name, _) ∷ rest) = Misses name rest × Distinct rest

  sequence-Misses :
      (command : Bytes) (list : List (Bytes × Block)) (d : Draft) (c : Client os)
      → Misses command list
      → sequence command list d c ≡ done d c
  sequence-Misses command [] d c h = refl
  sequence-Misses command ((name, block) ∷ rest) d c h =
      rw (h.0) (sequence-Misses command rest d c h.1)

  sequence-select :
      (command : Bytes) (list : List (Bytes × Block)) (d : Draft) (c : Client os)
      → Distinct list
      → sequence command list d c ≡ select command list d c
  sequence-select command [] d c h = refl
  sequence-select command ((name, block) ∷ rest) d c h = elim (Bool-cases (bytes_eq command name)) [
    | inl hit ↦
        let misses : Misses command rest =
          subst (λ t. Misses t rest) (sym (bytes_eq-eq command name hit)) h.0 in
        rw hit (bind-done (block d c) _ (λ d c. sequence-Misses command rest d c misses))
    | inr miss ↦ rw miss (sequence-select command rest d c h.1)
  ]

  blocks-Distinct : (base_path arg : Bytes) → Distinct (blocks base_path arg)
  blocks-Distinct base_path arg = ground arith

  -- The nine tests of a round, which stand one behind the other, run at most one block: that of the
  -- command, or none for a command that is not in the list.
  pub draft_of-select :
      (base_path command arg : Bytes) (d : Draft) (c : Client os)
      → draft_of os base_path command arg d c ≡ select command (blocks base_path arg) d c
  unfolding draft_of
  draft_of-select base_path command arg d c =
      sequence-select command (blocks base_path arg) d c (blocks-Distinct base_path arg)
