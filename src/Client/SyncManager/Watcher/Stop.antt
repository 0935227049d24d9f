-- ===== src/Client/SyncManager/Watcher/Stop.antt =====
-- How `stop_sync` ends the thread of `client/backend/sync_manager/sync_manager.cpp`.
use dropbox_ufrgs_sisop.Prelude.{
  ℕ, zero, suc, ◌+◌, ◌≤◌, ◌<◌, ◌≡◌, refl, sym, ◌∙◌, List, Bool, true, false, arith, Bool-cases, inl,
  inr, subst, ap,
}
use dropbox_ufrgs_sisop.Prelude.Outcome.{Outcome, done, bind}
use dropbox_ufrgs_sisop.Bytes.{Bytes}
use dropbox_ufrgs_sisop.Os.{Os}
use dropbox_ufrgs_sisop.Client.SyncManager.Watcher.{
  Poll, watch_loop, wait_and_watch, work_in, events, nothing_yet, broken, run,
}
use dropbox_ufrgs_sisop.Client.SyncManager.Mailbox.{AllDeletions, handle_batch-stays}
use dropbox_ufrgs_sisop.Client.SyncManager.{Event, SyncManager, get_stop, handle_batch}

-- An outcome that is a result, whose object is to stop or not as `b` says.
abbrev pub Stops : {S : Type 0} → Bool → Outcome S SyncManager → Type 0
Stops {S} b o = (n : SyncManager) × (t : S) × (o ≡ done n t) × (n.should_stop ≡ b)

-- The calls of `read` find deletions or nothing.
abbrev pub Quiet : Poll → Type 0
Quiet (events found) = AllDeletions found
Quiet nothing_yet = Unit
Quiet broken = ⊥

module _ (os : Os) (read_events : os.State → Poll × os.State)
    (others : ℕ → ℕ → SyncManager → SyncManager) (told : ℕ)
    (stays : (k i : ℕ) (m : SyncManager) → told ≤ k → (others k i m).should_stop ≡ true)
    (quiet : (s : os.State) → Quiet (read_events s).0) where
  -- One round on an object that is to stop.
  stopped :
      (fuel k : ℕ) (path : Bytes) (m : SyncManager) (s : os.State)
      → 0 < fuel
      → m.should_stop ≡ true
      → watch_loop os read_events others fuel k path m s ≡ done m s
  unfolding watch_loop get_stop
  stopped zero k path m s some_fuel stop = absurd (omega (arith, some_fuel))
  stopped (suc fuel) k path m s some_fuel stop = rw stop refl

  module _ (fuel k : ℕ) (path : Bytes) (m : SyncManager) (s : os.State)
      (next : (n : SyncManager) (t : os.State)
        → (told ≤ k → n.should_stop ≡ true)
        → Stops true (watch_loop os read_events others fuel (suc k) path n t))
      (running : m.should_stop ≡ false) where
    found_bind :
        (found : List Event)
        → (read_events s).0 ≡ events found
        → watch_loop os read_events others (suc fuel) k path m s
          ≡ bind
              (handle_batch os (λ i. others k (suc i)) path found (others k 0 m) (read_events s).1)
              (λ n t. watch_loop os read_events others fuel (suc k) path n t)
    unfolding watch_loop get_stop
    found_bind found e = ground arith

    found_step :
        (found : List Event) (n : SyncManager)
        → (read_events s).0 ≡ events found
        → handle_batch os (λ i. others k (suc i)) path found (others k 0 m) (read_events s).1
          ≡ done n (read_events s).1
        → watch_loop os read_events others (suc fuel) k path m s
          ≡ watch_loop os read_events others fuel (suc k) path n (read_events s).1
    found_step found n e ran =
        found_bind found e
        ∙ ap (λ o. bind o (λ n t. watch_loop os read_events others fuel (suc k) path n t)) ran

    quiet_step :
        (read_events s).0 ≡ nothing_yet
        → watch_loop os read_events others (suc fuel) k path m s
          ≡ watch_loop os read_events others fuel (suc k) path (others k 0 m) (read_events s).1
    unfolding watch_loop get_stop
    quiet_step e = ground arith

    one_round :
        (p : Poll)
        → (read_events s).0 ≡ p
        → Quiet p
        → Stops true (watch_loop os read_events others (suc fuel) k path m s)
    one_round broken e q = absurd q
    one_round nothing_yet e q =
        subst (Stops true) (sym (quiet_step e))
          (next (others k 0 m) (read_events s).1 (stays k 0 m))
    one_round (events found) e q =
        let (n, ran, kept) =
          handle_batch-stays os path (λ i. others k (suc i)) found (others k 0 m) (read_events s).1
            q in
        subst (Stops true) (sym (found_step found n e ran)) (
          next n (read_events s).1
            (λ late. kept (stays k 0 m late) (λ i x. stays k (suc i) x late)))

  -- The loop ends.
  watch_loop-Stops :
      (fuel k : ℕ) (path : Bytes) (m : SyncManager) (s : os.State)
      → told + 2 ≤ k + fuel
      → 0 < fuel
      → (told < k → m.should_stop ≡ true)
      → Stops true (watch_loop os read_events others fuel k path m s)
  watch_loop-Stops zero k path m s enough some_fuel heard = absurd (omega (arith, some_fuel))
  watch_loop-Stops (suc fuel) k path m s enough some_fuel heard = elim (Bool-cases m.should_stop) [
    | inl stop ↦ (m, s, stopped (suc fuel) k path m s (omega arith) stop, stop)
    | inr running ↦
        let early : k ≤ told = ground (arith, heard, running) in
        one_round fuel k path m s
          (λ n t kept.
            watch_loop-Stops fuel (suc k) path n t (omega (arith, enough))
              (omega (arith, enough, early)) (λ late. kept (omega (arith, late))))
          running (read_events s).0 refl (quiet s)
  ]

  wait_and_watch-Stops :
      (w fuel fd : ℕ) (path : Bytes) (m : SyncManager) (s : os.State)
      → 0 < w
      → told + 1 ≤ fuel
      → (told < 1 → m.should_stop ≡ true)
      → Stops true (wait_and_watch os read_events others w fuel fd path m s)
  unfolding wait_and_watch
  wait_and_watch-Stops zero fuel fd path m s watched enough heard = absurd (omega (arith, watched))
  wait_and_watch-Stops (suc w) fuel fd path m s watched enough heard =
      let (n, t, ran, stop) =
        watch_loop-Stops fuel 1 path (record m { watching = w }) s (omega (arith, enough))
          (omega (arith, enough)) heard in
      (n, os.close t fd, rw (ran, bind) refl, stop)

  -- Where `watch` has been called by the time the thread waits for it, and the calls of `read` find
  -- deletions or nothing and do not fail, `stop_sync` ends the thread: if the flag is set after every
  -- sleep from the one after call number `told` of `read` on, `run` returns, with the flag set, after
  -- at most `told + 1` such calls, however many deletions it has found and still finds.
  pub run-Stops :
      (fuel fd : ℕ) (m : SyncManager) (s : os.State)
      → ((n : SyncManager) → 0 < (others 0 0 n).watching)
      → told + 1 ≤ fuel
      → Stops true (run os read_events others fuel fd m s)
  unfolding run
  run-Stops fuel fd m s watched enough =
      let (started, path) = work_in os read_events others m (os.getcwd s) in
      wait_and_watch-Stops (others 0 0 started).watching fuel fd path (others 0 0 started) s
        (watched started) enough (λ late. stays 0 0 started (omega (arith, late)))
