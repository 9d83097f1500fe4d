-- ===== src/Examples.antt =====
-- The theorems at concrete inputs.
mod Lexing
mod Sources
mod Reports
mod Programs
mod Scopes
mod Memory
mod Parsing
mod Emission
mod Builds
