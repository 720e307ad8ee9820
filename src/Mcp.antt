-- ===== src/Mcp.antt =====
-- backend/mcp: the stored credentials of users, and the node types of the tools of a server.
pub mod Secrets
pub mod ApiKeys
pub mod Tokens
pub mod Server
pub mod Generated
