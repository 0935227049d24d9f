-- ===== src/Client.antt =====
-- The client: the state that its threads share, the events of the watched directory, the commands
-- that the user types, the packets that arrive, its main loop, and its connection to the server.
pub mod SyncManager
pub mod State
pub mod InputManager
pub mod Listener
pub mod Main
pub mod Start
pub mod Handshake
pub mod Connection
