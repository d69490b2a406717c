-- ===== src/Examples.antt =====
-- The theorems at concrete inputs, and runs of the code on them.
mod Access
mod Scope
mod Diff
mod Scan
mod Unescape
mod Windows
mod Audiences
mod LoginBroker
mod Routing
mod Ingest
mod Apply
mod Archives
mod Metadata
