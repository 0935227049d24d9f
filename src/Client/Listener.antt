-- ===== src/Client/Listener.antt =====
-- `packet_listener` of `client/main.cpp`: what the client does with a packet that arrives. `printf`
-- of a payload reads a C string, which is undefined where the payload has no NUL.
pub mod Files
use dropbox_ufrgs_sisop.Prelude.{
  ℕ, suc, zero, ◌++◌, ◌∷◌, [], List, none, some, ltb, ◌==◌, if◌then◌else◌,
}
use dropbox_ufrgs_sisop.Prelude.Int.{pos, is_negative}
use dropbox_ufrgs_sisop.Prelude.Outcome.{
  done, fault, M, bind, catch, ◌>>=◌, ◌>>◌, return, or_fault, no_fuel,
}
use dropbox_ufrgs_sisop.Bytes.{Bytes, c_string}
use dropbox_ufrgs_sisop.Os.{Os}
use dropbox_ufrgs_sisop.PacketType.{
  code, of_code, upload_req, sync_dir_accept_resp, delete_accept_resp, download_accept_resp,
  delete_broadcast, upload_broadcast, delete_refuse_resp,
}
use dropbox_ufrgs_sisop.Packet.{Packet, build_packet_sized}
use dropbox_ufrgs_sisop.Socket.{read_packet, write_packet}
use dropbox_ufrgs_sisop.File.{
  in_directory, from_data, deserialize, read_file, write_file, to_data, packet_size,
}
use dropbox_ufrgs_sisop.FileManager.{list_directory, listing_names}
use dropbox_ufrgs_sisop.Client.State.{Client, on_os, ignore_events}
use dropbox_ufrgs_sisop.Client.InputManager.{sync_dir, is_done}

module _ (os : Os) where
  -- `client_soc->client_write_packet(&p)`
  unfoldable pub client_write_packet : Packet → M (Client os) (Unit {0})
  client_write_packet p c = bind (on_os os (write_packet os c.client_soc p) c) (λ _. done tt)

  -- `client_soc->client_read_packet()`, with fuel for the loops that read
  unfoldable pub client_read_packet : ℕ → M (Client os) Packet
  client_read_packet fuel c =
      bind (on_os os (read_packet os fuel c.client_soc) c)
        (λ r d. done r.0 (record d { client_soc = r.1 }))

  -- `File write_file(sf); write_file.write_file(path)`. A failed write is only printed.
  unfoldable pub receive_file : Bytes → Packet → M (Client os) (Unit {0})
  receive_file path p = do
    sf ← or_fault (from_data p.payload)
    f ← or_fault (deserialize sf)
    _ ← on_os os (write_file os f path)
    return tt

  -- `remove` of a file in the synchronised directory. A failure is only printed.
  unfoldable pub remove_file : Bytes → Packet → M (Client os) (Unit {0})
  remove_file base_path p = do
    filename ← or_fault (c_string p.payload)
    λ c. elim (os.remove c.state (in_directory (base_path ++ sync_dir) filename)) [
      | none ↦ done tt c
      | some s ↦ done tt (record c { state = s })
    ]

  -- The files of the directory, sent to the server. What a failed read leaves in a file is not defined.
  unfoldable pub send_files : Bytes → List Bytes → M (Client os) (Unit {0})
  send_files path [] = return tt
  send_files path (filename ∷ names) = do
    found ← on_os os (read_file os (record { filename = filename; bytes = []; file_size = 0 }) path)
    _ ← λ c. if is_negative found.1 then fault else done tt c
    payload ← or_fault (to_data found.0)
    p ← or_fault (build_packet_sized (code upload_req) 0 0 (packet_size found.0) payload)
    client_write_packet p
    send_files path names

  -- The end of a synchronisation
  unfoldable pub send_directory : Bytes → M (Client os) (Unit {0})
  send_directory path c =
      let (total_files, out) = list_directory os path [] c.state in
      elim total_files [ pos (suc n) ↦ send_files path (listing_names out) c | _ ↦ done tt c ]

  -- `case SYNC_DIR_ACCEPT_RESP`
  unfoldable pub receive_sync : Bytes → Packet → M (Client os) (Unit {0})
  receive_sync base_path p =
      if ltb 0 p.total_size
      then (do
        ignore_events os
        receive_file (base_path ++ sync_dir) p
        if p.seqn == p.total_size then send_directory (base_path ++ sync_dir) else return tt)
      else return tt

  -- `printf("Received: %s\n", p._payload)`
  unfoldable pub print_payload : Packet → M (Client os) (Unit {0})
  print_payload p = do _ ← or_fault (c_string p.payload); return tt

  -- `switch (p.type)`
  unfoldable pub handle_packet : Bytes → Packet → M (Client os) (Unit {0})
  handle_packet base_path p = elim (of_code p.type) [
    | some sync_dir_accept_resp ↦ receive_sync base_path p
    | some delete_accept_resp ↦ remove_file base_path p
    | some download_accept_resp ↦ receive_file base_path p
    | some delete_broadcast ↦ (do ignore_events os; remove_file base_path p)
    | some upload_broadcast ↦ (do ignore_events os; receive_file (base_path ++ sync_dir) p)
    | some delete_refuse_resp ↦ return tt
    | _ ↦ print_payload p
  ]

  -- One round of the loop. An error of the socket is only printed.
  unfoldable pub listen_round : ℕ → Bytes → M (Client os) (Unit {0})
  listen_round fuel base_path = do
    received ← catch (do p ← client_read_packet fuel; return (some p)) (λ _. return none)
    elim received [ none ↦ return tt | some p ↦ handle_packet base_path p ]

  -- The loop, for a number of rounds at most.
  unfoldable pub packet_listener : ℕ → ℕ → Bytes → M (Client os) (Unit {0})
  packet_listener zero fuel base_path c = no_fuel
  packet_listener (suc rounds) fuel base_path c =
      let rest =
        bind (listen_round fuel base_path c) (λ _. packet_listener rounds fuel base_path) in
      if is_done c.input_manager then done tt c else rest
