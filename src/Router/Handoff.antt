-- ===== src/Router/Handoff.antt =====
-- How the two threads of a router hand a connection over. `Router::handle_connection` accepts a
-- connection while the flag `is_waiting` of the master socket is false, leaves it in
-- `out_slave_socket` and sets the flag; `Router::start` copies it while the flag is true and clears
-- the flag. The steps are those between which the other thread may run.
use dropbox_ufrgs_sisop.Prelude.{
  refl, ℕ, List, [], ◌∷◌, ◌++◌, ◌≡◌, true, false, Bool, arith, length, ◌≤◌, ◌∙◌, sym, append-nil,
}

-- Where the thread of `Router::handle_connection` stands: before its test, after the test, after
-- `accept`, and after the assignment to `out_slave_socket`.
pub data Acceptor : Type 0 where
  testing : Acceptor
  accepting : Acceptor
  storing : ℕ → Acceptor
  flagging : Acceptor

-- Where the loop of `Router::start` stands: before its test, after the test, and after the copy.
pub data Taker : Type 0 where
  polling : Taker
  copying : Taker
  clearing : Taker

-- `accepted` and `taken` are the connections that each thread has had, the oldest first.
pub record Handoff : Type 0 where
  pub is_waiting : Bool
  pub out_slave_socket : List ℕ
  pub acceptor : Acceptor
  pub taker : Taker
  pub accepted : List ℕ
  pub taken : List ℕ

abbrev pub start : Handoff
start = record {
  is_waiting = false;
  out_slave_socket = [];
  acceptor = testing;
  taker = polling;
  accepted = [];
  taken = [];
}

pub data Step : Handoff → Handoff → Type 0 where
  find_idle :
      {h : Handoff}
      → h.acceptor ≡ testing
      → h.is_waiting ≡ false
      → Step h (record h { acceptor = accepting })
  accept :
      {h : Handoff} (fd : ℕ)
      → h.acceptor ≡ accepting
      → Step h (record h { acceptor = storing fd; accepted = h.accepted ++ (fd ∷ []) })
  put :
      {h : Handoff} (fd : ℕ)
      → h.acceptor ≡ storing fd
      → Step h (record h { acceptor = flagging; out_slave_socket = fd ∷ [] })
  flag :
      {h : Handoff}
      → h.acceptor ≡ flagging
      → Step h (record h { acceptor = testing; is_waiting = true })
  find_waiting :
      {h : Handoff}
      → h.taker ≡ polling
      → h.is_waiting ≡ true
      → Step h (record h { taker = copying })
  copy_out :
      {h : Handoff}
      → h.taker ≡ copying
      → Step h (record h { taker = clearing; taken = h.taken ++ h.out_slave_socket })
  clear :
      {h : Handoff} → h.taker ≡ clearing → Step h (record h { taker = polling; is_waiting = false })

pub data Reach : Handoff → Type 0 where
  here : Reach start
  next : {h k : Handoff} → Reach h → Step h k → Reach k

-- Where the two threads stand, and what that says of the connections that they have had.
abbrev Fits : Acceptor → Taker → Bool → List ℕ → List ℕ → List ℕ → Type 0
Fits testing polling false accepted taken slot = accepted ≡ taken
Fits testing polling true accepted taken slot = accepted ≡ taken ++ slot
Fits testing copying true accepted taken slot = accepted ≡ taken ++ slot
Fits testing clearing true accepted taken slot = accepted ≡ taken
Fits accepting polling false accepted taken slot = accepted ≡ taken
Fits (storing fd) polling false accepted taken slot = accepted ≡ taken ++ (fd ∷ [])
Fits flagging polling false accepted taken slot = accepted ≡ taken ++ slot
Fits _ _ _ accepted taken slot = ⊥

abbrev IsHandoff : Handoff → Type 0
IsHandoff h = Fits h.acceptor h.taker h.is_waiting h.accepted h.taken h.out_slave_socket

Step-IsHandoff : {h k : Handoff} → Step h k → IsHandoff h → IsHandoff k
Step-IsHandoff (find_idle a f) v = ground arith
Step-IsHandoff (accept fd a) v = ground arith
Step-IsHandoff (put fd a) v = ground arith
Step-IsHandoff (flag a) v = ground arith
Step-IsHandoff (find_waiting a f) v = ground arith
Step-IsHandoff (copy_out a) v = ground arith
Step-IsHandoff (clear a) v = ground arith

Step-slot :
    {h k : Handoff} → Step h k → length h.out_slave_socket ≤ 1 → length k.out_slave_socket ≤ 1
Step-slot (find_idle a f) v = v
Step-slot (accept fd a) v = v
Step-slot (put fd a) v = omega arith
Step-slot (flag a) v = v
Step-slot (find_waiting a f) v = v
Step-slot (copy_out a) v = v
Step-slot (clear a) v = v

Reach-IsHandoff : {h : Handoff} → Reach h → IsHandoff h × (length h.out_slave_socket ≤ 1)
Reach-IsHandoff here = (refl, omega arith)
Reach-IsHandoff (next r s) =
    let (v, slot) = Reach-IsHandoff r in (Step-IsHandoff s v, Step-slot s slot)

abbrev OnTheWay : List ℕ → List ℕ → Type 0
OnTheWay accepted taken = (rest : List ℕ) × (accepted ≡ taken ++ rest) × (length rest ≤ 1)

Fits-rest :
    (a : Acceptor) (t : Taker) (w : Bool) (accepted taken slot : List ℕ)
    → Fits a t w accepted taken slot
    → length slot ≤ 1
    → OnTheWay accepted taken
Fits-rest testing polling false accepted taken slot v h =
    ([], v ∙ sym (append-nil taken), omega arith)
Fits-rest testing polling true accepted taken slot v h = (slot, v, h)
Fits-rest testing copying true accepted taken slot v h = (slot, v, h)
Fits-rest testing clearing true accepted taken slot v h =
    ([], v ∙ sym (append-nil taken), omega arith)
Fits-rest accepting polling false accepted taken slot v h =
    ([], v ∙ sym (append-nil taken), omega arith)
Fits-rest (storing fd) polling false accepted taken slot v h = (fd ∷ [], v, omega arith)
Fits-rest flagging polling false accepted taken slot v h = (slot, v, h)
Fits-rest _ _ _ accepted taken slot v h = absurd v

-- However the two threads interleave, the router takes the accepted connections in the order in
-- which they were accepted, each once, and at most one is on its way.
pub Reach-OnTheWay :
    (h : Handoff) → Reach h → (rest : List ℕ) × (h.accepted ≡ h.taken ++ rest) × (length rest ≤ 1)
Reach-OnTheWay h r =
    let (v, slot) = Reach-IsHandoff r in
    Fits-rest h.acceptor h.taker h.is_waiting h.accepted h.taken h.out_slave_socket v slot
