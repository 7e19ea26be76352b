-- ===== src/Tests.antt =====
-- The theorems applied to concrete states of the program.
mod Queue
mod Buffer
mod Registry
mod Service
mod Tool
mod Shell
mod Node
