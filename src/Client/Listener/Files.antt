-- ===== src/Client/Listener/Files.antt =====
-- Packets that bring a file.
use dropbox_ufrgs_sisop.Prelude.{◌≡◌, some, Option-cases, inl, inr, arith}
use dropbox_ufrgs_sisop.Prelude.OptionMonad.{◌>>=◌}
use dropbox_ufrgs_sisop.Prelude.Outcome.{done, bind}
use dropbox_ufrgs_sisop.Bytes.{Bytes}
use dropbox_ufrgs_sisop.Os.{Os}
use dropbox_ufrgs_sisop.Packet.{Packet}
use dropbox_ufrgs_sisop.File.{File, from_data, deserialize, write_file}
use dropbox_ufrgs_sisop.Client.State.{Client, on_os}
use dropbox_ufrgs_sisop.Client.Listener.{receive_file}

module _ (os : Os) where
  -- The file in a payload is written, whatever comes of it.
  pub receive_file-write_file :
      (path : Bytes) (p : Packet) (f : File) (c : Client os)
      → (from_data p.payload >>= deserialize) ≡ some f
      → receive_file os path p c ≡ bind (on_os os (write_file os f path) c) (λ _. done tt)
  unfolding receive_file
  receive_file-write_file path p f c carried = elim (Option-cases (from_data p.payload)) [
    | inl missing ↦ absurd (ground (arith, carried, missing))
    | inr (sf, parsed) ↦
        let file : deserialize sf ≡ some f = rw parsed at carried in
        rw (parsed, receive_file, bind) (rw (file, bind))
  ]
