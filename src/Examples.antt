-- ===== src/Examples.antt =====
-- Concrete graphs, stores and runs: tests of the definitions, and the theorems at inputs that meet
-- their hypotheses.
mod Graphs
mod Runs
mod Checks
mod Stores
mod Tables
mod Agents
mod Accounts
mod Triggers
mod Types
mod Submits
mod Invokes
mod Servers
mod Tools
mod Members
