-- ===== src/Client/SyncManager/Mailbox.antt =====
-- What becomes of the events of one batch.
use dropbox_ufrgs_sisop.Prelude.Int.{pos, to_int}
use native.Mathlib.Nat.{mod-eq_of_lt}
use dropbox_ufrgs_sisop.Prelude.{
  none, false, ◌≡◌, refl, List, [], ◌∷◌, ◌++◌, true, false, some, length, ◌||◌, ltb, Bool,
  Bool-cases, lt→ltb, ℕ, ◌<◌, Option-cases, if◌then◌else◌, inl, not, ◌^◌, inr, ◌%◌, ◌∙◌, arith,
}
use dropbox_ufrgs_sisop.Prelude.Outcome.{done, bind}
use dropbox_ufrgs_sisop.Bytes.{Bytes}
use dropbox_ufrgs_sisop.Os.{Os}
use dropbox_ufrgs_sisop.PacketType.{code, delete_req}
use dropbox_ufrgs_sisop.Packet.{Packet}
use dropbox_ufrgs_sisop.Packet.Header.{build_packet_sized_self}
use dropbox_ufrgs_sisop.Client.SyncManager.{
  Event, SyncManager, event_message, handle_event, handle_events, handle_batch, set_packet,
  get_packet, should_send, get_should_ignore,
}

-- A file that has gone from the directory, with its name, of a length that an `int` holds.
pub record IsDeletion (event : Event) : Type 0 where
  pub stays : event.moved_to ≡ false
  pub gone : (event.moved_from || event.deleted) ≡ true
  pub named : 0 < length event.name
  pub short : length event.name < 2 ^ 31

abbrev pub AllDeletions : List Event → Type 0
AllDeletions [] = Unit
AllDeletions (event ∷ events) = IsDeletion event × AllDeletions events

-- The request for a deletion.
abbrev pub delete_packet : Event → Packet
delete_packet event = record {
  type = code delete_req;
  seqn = 0;
  total_size = 0;
  length = length event.name;
  payload = event.name;
}

-- The main loop of the client, in a sleep: it takes the packet if it looks and there is one.
abbrev pub main_loop_nap : Bool → SyncManager → SyncManager
main_loop_nap false m = m
main_loop_nap true m = if should_send m then elim (get_packet m) [ none ↦ m | some x ↦ x.1 ] else m

module _ (os : Os) (current_path : Bytes) where
  event_message-deletion :
      (event : Event) (s : os.State)
      → IsDeletion event
      → event_message os current_path event s
        ≡ done (code delete_req, pos (length event.name), event.name) s
  unfolding event_message
  event_message-deletion event s d =
      let below : length event.name < 2 ^ 32 = omega (arith, d.short) in
      let size : to_int (length event.name % 2 ^ 32) ≡ pos (length event.name) =
        rw (mod-eq_of_lt below) (rw (lt→ltb (length event.name) (2 ^ 31) d.short) refl) in
      rw (d.stays, d.gone) (rw size refl)

  handle_event-deletion :
      (nap : SyncManager → SyncManager) (event : Event) (m : SyncManager) (s : os.State)
      → IsDeletion event
      → m.should_ignore ≡ false
      → handle_event os nap current_path event m s ≡ done (set_packet nap (delete_packet event) m) s
  unfolding handle_event get_should_ignore
  handle_event-deletion nap event m s d heard =
      let some_name : ltb 0 (length event.name) ≡ true = lt→ltb 0 (length event.name) d.named in
      rw (event_message-deletion event s d, bind)
        (rw (some_name, heard, bind)
          (rw (
            build_packet_sized_self (code delete_req) 0 0 (length event.name) event.name refl,
            bind,
          )))

  handle_event-ignored :
      (nap : SyncManager → SyncManager) (event : Event) (m : SyncManager) (s : os.State)
      → IsDeletion event
      → m.should_ignore ≡ true
      → handle_event os nap current_path event m s ≡ done m s
  unfolding handle_event get_should_ignore
  handle_event-ignored nap event m s d deaf =
      let some_name : ltb 0 (length event.name) ≡ true = lt→ltb 0 (length event.name) d.named in
      rw (event_message-deletion event s d, bind) (rw (some_name, deaf, bind))

  -- One deletion always succeeds, and a flag that every sleep sets stays set.
  handle_event-stays :
      (nap : SyncManager → SyncManager) (event : Event) (m : SyncManager) (s : os.State)
      → IsDeletion event
      → (n : SyncManager) × (handle_event os nap current_path event m s ≡ done n s)
        × (m.should_stop ≡ true
            → ((x : SyncManager) → (nap x).should_stop ≡ true)
            → n.should_stop ≡ true)
  unfolding set_packet
  handle_event-stays nap event m s d = elim (Bool-cases m.should_ignore) [
    | inl deaf ↦ (m, handle_event-ignored nap event m s d deaf, λ stop _. stop)
    | inr heard ↦ (
      set_packet nap (delete_packet event) m,
      handle_event-deletion nap event m s d heard,
      λ _ stays. stays (record m { send = true; pac = some (delete_packet event) }),
    )
  ]

  handle_events-stays :
      (naps : ℕ → SyncManager → SyncManager) (events : List Event) (m : SyncManager) (s : os.State)
      → AllDeletions events
      → (n : SyncManager) × (handle_events os naps current_path events m s ≡ done n s)
        × (m.should_stop ≡ true
            → ((i : ℕ) (x : SyncManager) → (naps i x).should_stop ≡ true)
            → n.should_stop ≡ true)
  unfolding handle_events
  handle_events-stays naps [] m s a = (m, refl, λ stop _. stop)
  handle_events-stays naps (event ∷ events) m s a =
      let (n, first, kept) = handle_event-stays (naps (length events)) event m s a.0 in
      let (r, rest, after) = handle_events-stays naps events n s a.1 in
      (r, rw (first, bind) rest, λ stop stays. after (kept stop (stays (length events))) stays)

  -- A batch of deletions always succeeds, and a flag that every sleep sets stays set.
  pub handle_batch-stays :
      (naps : ℕ → SyncManager → SyncManager) (events : List Event) (m : SyncManager) (s : os.State)
      → AllDeletions events
      → (n : SyncManager) × (handle_batch os naps current_path events m s ≡ done n s)
        × (m.should_stop ≡ true
            → ((i : ℕ) (x : SyncManager) → (naps i x).should_stop ≡ true)
            → n.should_stop ≡ true)
  unfolding handle_batch
  handle_batch-stays naps events m s a =
      let (n, ran, kept) = handle_events-stays naps events m s a in
      (record n { should_ignore = false }, rw (ran, bind) refl, kept)

  -- A nap of the main loop leaves what is to be ignored.
  nap-should_ignore :
      (b : Bool) (m : SyncManager)
      → (main_loop_nap b (record m { send = true })).should_ignore ≡ m.should_ignore
  unfolding should_send get_packet
  nap-should_ignore false m = refl
  nap-should_ignore true m = elim (Option-cases m.pac) [
    | inl missing ↦ rw missing refl
    | inr (p, there) ↦ rw there refl
  ]

  handle_events-last :
      (takes : ℕ → Bool) (events : List Event) (last : Event) (m : SyncManager) (s : os.State)
      → AllDeletions events
      → IsDeletion last
      → m.should_ignore ≡ false
      → (n : SyncManager) × (handle_events os
            (λ i. main_loop_nap (takes i))
            current_path
            (events ++ (last ∷ []))
            m
            s
          ≡ done n s)
        × (n.send ≡ not (takes 0))
        × (n.pac ≡ some (delete_packet last))
  unfolding handle_events set_packet should_send get_packet
  handle_events-last takes [] last m s a d heard = elim (Bool-cases (takes 0)) [
    | inl took ↦ (
      record m { send = false; pac = some (delete_packet last) },
      rw (handle_event-deletion (main_loop_nap (takes 0)) last m s d heard, bind) (rw took refl),
      rw took refl,
      refl,
    )
    | inr left ↦ (
      record m { send = true; pac = some (delete_packet last) },
      rw (handle_event-deletion (main_loop_nap (takes 0)) last m s d heard, bind) (rw left refl),
      rw left refl,
      refl,
    )
  ]
  handle_events-last takes (event ∷ events) last m s a d heard =
      let k = length (events ++ (last ∷ [])) in
      let n : SyncManager = set_packet (main_loop_nap (takes k)) (delete_packet event) m in
      let (r, ran, flag, place) =
        handle_events-last takes events last n s a.1 d
          (nap-should_ignore (takes k) (record m { pac = some (delete_packet event) }) ∙ heard) in
      (
        r,
        rw (handle_event-deletion (main_loop_nap (takes k)) event m s a.0 heard, bind) ran,
        flag,
        place,
      )

  -- Whichever of the sleeps of `set_packet` the main loop of the client uses to look for a packet, if
  -- nothing is to be ignored, a batch of deletions leaves the last of them in the place for one packet,
  -- and that is still to be sent exactly if the main loop has not looked in the sleep after it: what it
  -- has not taken in its own sleep is overwritten. Here `takes i` says that it looks in the sleep with
  -- `i` deletions left.
  pub handle_batch-last :
      (takes : ℕ → Bool) (events : List Event) (last : Event) (m : SyncManager) (s : os.State)
      → AllDeletions events
      → IsDeletion last
      → m.should_ignore ≡ false
      → (n : SyncManager) × (handle_batch os
            (λ i. main_loop_nap (takes i))
            current_path
            (events ++ (last ∷ []))
            m
            s
          ≡ done n s)
        × (should_send n ≡ not (takes 0))
        × (n.pac ≡ some (delete_packet last))
  unfolding handle_batch should_send
  handle_batch-last takes events last m s a d heard =
      let (n, ran, flag, place) = handle_events-last takes events last m s a d heard in
      (record n { should_ignore = false }, rw (ran, bind) refl, flag, place)
