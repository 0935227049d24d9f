-- ===== src/Os/Stream.antt =====
-- What a stream socket documents of `read`: while bytes are on their way and no error occurs, it
-- gives some of them, in their order, and no more than it was asked for.
use dropbox_ufrgs_sisop.Prelude.{ℕ, ◌≤◌, ◌<◌, ◌≡◌, ◌≢◌, [], ◌++◌, length}
use dropbox_ufrgs_sisop.Bytes.{Bytes}
use dropbox_ufrgs_sisop.Os.{Os, got}

pub record IsStream (os : Os) : Type 0 where
  -- the bytes that the peer has sent and nobody has read
  pub pending : os.State → ℕ → Bytes
  pub recv-pending :
      (s : os.State) (fd k : ℕ)
      → 0 < k
      → pending s fd ≢ []
      → (bs : Bytes) × (t : os.State) × (os.recv s fd k ≡ (got bs, t))
        × (bs ≢ [])
        × (length bs ≤ k)
        × (pending s fd ≡ bs ++ pending t fd)
  -- the size of memory
  pub length-garbage : (s : os.State) (n : ℕ) → length (os.garbage s n) ≡ n
