-- ===== src/Examples.antt =====
-- Runs at concrete inputs, for each part the data and what its theorems say of it.
mod Planning
mod Applying
mod LocalFile
mod Migrating
mod Serving
mod Graph
mod Rules
mod Retrying
mod Looping
mod Tasks
mod Lexing
mod Packages
mod Merging
