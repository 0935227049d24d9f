-- ===== src/Tests.antt =====
-- Concrete runs of the program: small operating systems, packets, votes, users, clients, servers and
-- requests, with the theorems applied to them.
mod World
mod Packets
mod Votes
mod Users
mod Logins
mod Backups
mod Transfers
mod Events
mod Clients
mod Elections
mod Servers
mod Screens
mod Failovers
mod Ends
mod Workers
mod Relaunches
