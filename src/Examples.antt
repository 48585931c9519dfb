-- ===== src/Examples.antt =====
-- Runs of the program at concrete inputs.
mod Sample
mod Data
mod Storage
mod Stores
mod Clients
mod Requests
mod Flows
mod SignIn
mod Keys
mod Admin
mod Worker
mod Secrets
mod Settings
