-- ===== src/Tests.antt =====
-- Concrete inputs: runs of the definitions, and the theorems at inputs where their conditions hold.
mod Long
mod Wire
mod Channel
mod Ecs
mod Game
mod Threads
mod Systems
mod Saves
mod Protocol
