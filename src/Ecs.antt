-- ===== src/Ecs.antt =====
-- server/game/ecs and server/game/components: the entities, the components that belong to them and
-- what a health and a status component do.
pub mod Entities
pub mod Store
pub mod Systems
pub mod Health
pub mod Objects
