-- ===== src/Protocol/Lists.antt =====
-- The messages of common/protocol that hold a list: combat_result_notify, map_objects_update and
-- guild_member_list_res.
pub mod Defs
pub mod Items
pub mod Objects
pub mod Members
