-- ===== src/Examples.antt =====
-- Concrete runs of the definitions.
mod Grades
mod Registrations
mod MeritLists
mod Trail
mod SyncRuns
mod Approvals
mod Finances
mod Campus
mod Registers
mod Staff
mod Timetables
mod Records
mod Intake
mod Bills
