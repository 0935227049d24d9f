-- ===== src/EndToEnd.antt =====
-- A client and a server together: a request from the line that the user types to the disk at the other
-- end; and two servers, or a server and a client, where the master is new or silent. Each of them has
-- an operating system of its own.
pub mod Download
pub mod Upload
pub mod Delete
pub mod Sync
pub mod Reconnect
pub mod Join
pub mod Keepalive
pub mod Login
pub mod Failover
pub mod Launch
pub mod Relaunch
