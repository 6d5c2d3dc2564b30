-- ===== src/Tests.antt =====
-- Runs of the definitions on concrete inputs, and each theorem at an input that meets its hypotheses.
mod Tokens
mod Queues
mod Pools
mod Guards
mod Schedulers
mod Waiting
mod Validations
mod Builds
mod Machines
mod Completions
mod Rows
mod Regions
