-- ===== src/Tests.antt =====
-- Runs of the model on small inputs, and the theorems at concrete inputs.
mod Orders
mod Fixtures
mod ToyJwt
mod Amendments
mod Keys
mod TaskCalls
mod TeamCalls
mod Accounts
mod Caching
mod Letters
mod Fresh
mod Reports
mod Overrides
mod Requests
mod Routes
mod Reached
mod Startup
mod Standings
mod System
mod Lost
mod Stale
mod Founding
