-- ===== src/Tests.antt =====
-- Runs on concrete inputs, and the theorems at inputs that meet their hypotheses.
mod ParserRuns
mod Strings
mod Stacks
mod Nestings
mod Texts
mod Doms
mod Documents
mod Pulls
mod AnyBytes
mod Allocs
