-- ===== src/Auth.antt =====
-- backend/auth: the signed tokens of sessions and sign-in round trips.
pub mod Tokens
