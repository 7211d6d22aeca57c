-- ===== src/Examples.antt =====
-- Runs of the model on concrete data: the theorems applied where their hypotheses hold, and tests.
mod Data
mod Reconciler
mod Rows
mod Dispatcher
mod Limits
mod Engine
mod Connection
mod Requests
mod Sessions
