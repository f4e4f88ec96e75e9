-- ===== src/Scenarios.antt =====
-- The theorems at concrete inputs, and runs of the code on them.
mod Leases
mod Choices
mod Texts
mod Answers
mod Uploads
mod Demands
mod Reductions
mod Logs
mod Queues
mod Rankings
mod CommandLines
mod Repositories
mod Retrievals
