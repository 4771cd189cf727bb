-- ===== src/Tests.antt =====
-- Runs of the model on concrete inputs, and the theorems at inputs that meet their conditions.
mod Tape
mod World
mod Witnesses
mod Downloads
mod Requests
mod Logins
mod Accounts
mod Panels
