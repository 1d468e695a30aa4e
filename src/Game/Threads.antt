-- ===== src/Game/Threads.antt =====
-- server/game/threading: the thread of each map, the manager of these threads, and the main thread
-- with its queues of tasks.
pub mod Map
pub mod Monsters
pub mod Manager
pub mod Placement
pub mod Counts
pub mod Main
