-- ===== src/Tests.antt =====
-- Runs of the model at small inputs, and the theorems at inputs that meet their hypotheses.
mod Wire
mod Pool
mod Book
mod Engine
mod Generator
mod Clients
mod Plots
mod Priority
mod Report
mod Arena
mod Axes
