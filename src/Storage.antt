-- ===== src/Storage.antt =====
-- backend/storage: the SQLite stores, as tables of rows with a primary key.
pub mod Table
pub mod Graphs
pub mod Sharing
pub mod InvokeKeys
pub mod Runs
pub mod Users
