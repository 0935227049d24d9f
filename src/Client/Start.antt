-- ===== src/Client/Start.antt =====
-- `main` of `client/main.cpp` from its arguments to its end. What the other threads do to the shared
-- objects while the main loop sleeps is an argument of the loop.
pub mod Exit
use dropbox_ufrgs_sisop.Prelude.{ℕ, zero, suc, List, [], ◌∷◌, Bool, true, false, Option, none, some}
use dropbox_ufrgs_sisop.Prelude.Int.{ℤ, pos, negsuc}
use dropbox_ufrgs_sisop.Prelude.Outcome.{done, no_fuel, M, bind, within, ◌>>=◌, ◌>>◌, return}
use dropbox_ufrgs_sisop.Bytes.{Bytes}
use dropbox_ufrgs_sisop.Text.Numbers.{atoi}
use dropbox_ufrgs_sisop.Os.{Os}
use dropbox_ufrgs_sisop.Client.State.{Client}
use dropbox_ufrgs_sisop.Client.InputManager.{new_input_manager, is_done}
use dropbox_ufrgs_sisop.Client.SyncManager.Watcher.{new}
use dropbox_ufrgs_sisop.Client.Connection.{ClientSocket, new_client_socket, connect_to_server}
use dropbox_ufrgs_sisop.Client.Main.{log_in, main_round, hang_up}

-- The arguments of the program.
pub record Arguments : Type 0 where
  pub username : Bytes
  pub server_address : Bytes
  pub port : ℤ
  pub my_ip : Bytes

-- `argv`, whose first element is the program. With less than four behind it there is only a message.
unfoldable pub arguments : List Bytes → Option Arguments
arguments (_ ∷ username ∷ server_address ∷ port ∷ my_ip ∷ _) = some (record {
  username = username;
  server_address = server_address;
  port = atoi port;
  my_ip = my_ip;
})
arguments _ = none

module _ (os : Os) (others : ℕ → Client os → Client os) where
  -- `while (!input_manager.is_done())`, with fuel for its rounds; `others k` is what the other threads
  -- do in the sleep of round `k`.
  unfoldable pub main_loop : ℕ → ℕ → M (Client os) (Unit {0})
  main_loop zero k c = no_fuel
  main_loop (suc fuel) k c = elim (is_done c.input_manager) [
    | true ↦ done tt c
    | false ↦ bind (main_round os (others k c)) (λ _ d. main_loop fuel (suc k) d)
  ]

  -- The shared objects, as their constructors leave them.
  abbrev pub new_client : Bool → ClientSocket → os.State → Client os
  new_client unset soc s = record {
    state = s;
    client_soc = soc.socket;
    input_manager = new_input_manager;
    sync_manager = new unset;
  }

  -- From the login to the end.
  unfoldable pub session : ℕ → ℕ → Arguments → M (Client os) (Unit {0})
  session rounds fuel a = do log_in os fuel a.username a.my_ip; main_loop rounds 0; hang_up os

  -- `main`; the result is that of the program.
  unfoldable pub main : ℕ → ℕ → Bool → List Bytes → M os.State ℤ
  main rounds fuel unset argv = elim (arguments argv) [
    | none ↦ return (negsuc 0)
    | some a ↦ (do
      soc ← new_client_socket os a.server_address a.port
      connect_to_server os soc
      λ s.
          within (λ _. new_client unset soc s) (λ c _. c.state)
            (do session rounds fuel a; return (pos 0)) s)
  ]
