-- ===== src/Journal/Apply.antt =====
-- internal/journal/apply.go and hold.go: writing snapshots into the journal, over the tables as a
-- value. A transaction is one step: the locks on the subject and on the events keep the writes of a
-- subject, and the sequence of events, apart.
pub mod Types
pub mod Build
pub mod Write
pub mod Serve
pub mod Agrees
pub mod Rows
pub mod Refines
pub mod Sequences
pub mod Refinement
pub mod Final
pub mod Settle
pub mod Answers
pub mod Resend
pub mod Scans
pub mod Judging
