-- ===== src/Attempts.antt =====
-- runner/attempt_loop.go, with the files of runner/ that it calls: preflight.go, verification.go,
-- evidence.go and the end of a read-only run in work.go.
pub mod State
pub mod Ending
pub mod Step
pub mod Loop
mod Rule
mod ReadOnly
mod Final
mod Rounds
mod History
mod Tests
