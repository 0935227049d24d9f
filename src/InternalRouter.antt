-- ===== src/InternalRouter.antt =====
-- `server/comms/router/internal_router.cpp`: how a server speaks to the other servers. The children
-- hold the signature that names the user of a replicated packet, its broadcast to the backups, the
-- vote for a new master, what a backup does with the packets of its master, how it joins the servers,
-- and what the master does for its backups.
pub mod Signature
pub mod Vote
pub mod Master
pub mod Member
pub mod Succession
pub mod Broadcast
pub mod Backup
