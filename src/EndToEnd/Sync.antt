-- ===== src/EndToEnd/Sync.antt =====
-- The packets of a synchronisation, at the client.
use dropbox_ufrgs_sisop.Prelude.{
  ℕ, ◌+◌, ◌<◌, ◌^◌, ◌≡◌, ◌∙◌, refl, List, [], ◌∷◌, ◌++◌, true, false, length, arith, if◌then◌else◌,
  ◌==◌, ◌≤◌, lt→ltb, sym,
}
use native.Mathlib.Nat.{mod-eq_of_lt}
use dropbox_ufrgs_sisop.Prelude.Outcome.Laws.{bind-done, bind_assoc, bind_congr}
use dropbox_ufrgs_sisop.Prelude.Outcome.{M, done, bind}
use dropbox_ufrgs_sisop.Bytes.{Bytes, has_nul}
use dropbox_ufrgs_sisop.Os.{Os}
use dropbox_ufrgs_sisop.Packet.{Packet}
use dropbox_ufrgs_sisop.File.{File, write_file}
use dropbox_ufrgs_sisop.File.RoundTrip.{IsFile}
use dropbox_ufrgs_sisop.Manager.Files.Sync.{sync_packets, sync_packet}
use dropbox_ufrgs_sisop.Manager.Requests.Transfer.{file_packet-back}
use dropbox_ufrgs_sisop.Client.State.{Client, on_os}
use dropbox_ufrgs_sisop.Client.SyncManager.{ignore}
use dropbox_ufrgs_sisop.Client.InputManager.{sync_dir}
use dropbox_ufrgs_sisop.Client.Listener.{handle_packet, receive_sync, send_directory}
use dropbox_ufrgs_sisop.Client.Listener.Files.{receive_file-write_file}

abbrev pub AllFiles : List File → Type 0
AllFiles [] = Unit
AllFiles (f ∷ files) = (IsFile f × (has_nul f.bytes ≡ true)) × AllFiles files

module _ (os : Os) (base_path : Bytes) where
  -- The packets that arrive, one after the other.
  abbrev pub handle_all : List Packet → M (Client os) (Unit {0})
  handle_all [] c = done tt c
  handle_all (p ∷ packets) c = bind (handle_packet os base_path p c) (λ _. handle_all packets)

  -- The files, written into the synchronised directory while its events are ignored.
  abbrev pub store_all : List File → M (Client os) (Unit {0})
  store_all [] c = done tt c
  store_all (f ∷ files) c =
      bind
        (on_os os (write_file os f (base_path ++ sync_dir))
          (record c { sync_manager = ignore c.sync_manager }))
        (λ _. store_all files)

  -- One of the packets, at the client.
  handle_packet-sync :
      (i total : ℕ) (f : File) (c : Client os)
      → IsFile f
      → has_nul f.bytes ≡ true
      → i < 2 ^ 16
      → i ≤ total
      → 0 < i
      → handle_packet os base_path (sync_packet i total f) c
        ≡ bind
            (on_os os
              (write_file os f (base_path ++ sync_dir))
              (record c { sync_manager = ignore c.sync_manager }))
            (λ _. if i == total then send_directory os (base_path ++ sync_dir) else done tt)
  unfolding handle_packet receive_sync
  handle_packet-sync i total f c v nul small ordered positive =
      rw (lt→ltb 0 total (omega arith), handle_packet, receive_sync, bind)
        (rw
          (
            receive_file-write_file os (base_path ++ sync_dir) (sync_packet i total f) f
                (record c { sync_manager = ignore c.sync_manager }) (file_packet-back f v nul),
            bind,
          )
          (rw (mod-eq_of_lt small)
            (bind_assoc (on_os os (write_file os f (base_path ++ sync_dir)) _) _ _)))

  handle_all-from :
      (i total : ℕ) (f : File) (files : List File) (c : Client os)
      → AllFiles (f ∷ files)
      → total < 2 ^ 16
      → 0 < i
      → i + length files ≡ total
      → handle_all (sync_packets i total (f ∷ files)) c
        ≡ bind (store_all (f ∷ files) c) (λ _. send_directory os (base_path ++ sync_dir))
  handle_all-from i total f [] c v small positive last =
      let same : (i == total) ≡ true = ground arith in
      rw (handle_packet-sync i total f c v.0.0 v.0.1 (omega arith) (omega arith) positive, same)
        (bind-done _ _ (λ _ _. refl)
          ∙ sym (bind_assoc (on_os os (write_file os f (base_path ++ sync_dir)) _) _ _))
  handle_all-from i total f (g ∷ files) c v small positive ends =
      let differ : (i == total) ≡ false = ground arith in
      rw (handle_packet-sync i total f c v.0.0 v.0.1 (omega arith) (omega arith) positive, differ)
        (bind_assoc (on_os os (write_file os f (base_path ++ sync_dir)) _) _ _
          ∙ bind_congr (on_os os (write_file os f (base_path ++ sync_dir)) _) _ _
              (λ _ d. handle_all-from (i + 1) total g files d v.1 small (omega arith) (omega arith))
          ∙ sym (bind_assoc (on_os os (write_file os f (base_path ++ sync_dir)) _) _ _))

  -- The packets of a synchronisation of fewer than 65536 files that each hold a NUL, as the server sends
  -- them, make the
  -- client write all the files, in their order, into its synchronised directory, while it ignores
  -- the events of that directory; and after the last of them, and only then, it sends the files of
  -- the directory to the server.
  pub handle_all-sync_packets :
      (f : File) (files : List File) (c : Client os)
      → AllFiles (f ∷ files)
      → length (f ∷ files) < 2 ^ 16
      → handle_all (sync_packets 1 (length (f ∷ files)) (f ∷ files)) c
        ≡ bind (store_all (f ∷ files) c) (λ _. send_directory os (base_path ++ sync_dir))
  handle_all-sync_packets f files c v small =
      handle_all-from 1 (length (f ∷ files)) f files c v small (omega arith) (omega arith)
