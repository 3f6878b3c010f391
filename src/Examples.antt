-- ===== src/Examples.antt =====
-- Concrete logs, files and scopes, at which the theorems are applied.
mod Samples
mod Merging
mod Folding
mod Checking
mod Cutting
mod Leasing
mod Linking
mod Racing
