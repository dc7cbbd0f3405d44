-- ===== src/Tests.antt =====
-- Concrete swaps, and the theorems applied to them.
mod World
mod Safety
mod Payments
mod Texts
mod Senders
mod Runs
mod Premiums
mod Actives
mod Services
mod Served
mod Policies
mod Stores
mod Versions
mod Peers
