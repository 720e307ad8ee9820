-- ===== src/Api.antt =====
-- backend/api: the in-memory records of runs (runs.py), and the routes of app.py.
pub mod Runs
pub mod Auth
pub mod Activation
pub mod Submit
pub mod Contract
pub mod Invoke
pub mod Options
pub mod Connections
