-- ===== src/Ecs/Objects.antt =====
-- The components of server/game/components/game_object.hpp and health.hpp: their constructors, the
-- fields that clone() sets after the constructor, and what a clone is. A channel id is the 32-bit
-- pattern of an int.
use ecs_asio_server.Common.{ℕ, ◌≡◌, refl, List, Bool, true}
use ecs_asio_server.Ecs.Health.{Health, clone_health, new_health, Status, clone_status, new_status}

pub data GameObjectType : Type 0 where
  player npc monster item interactive_object projectile effect : GameObjectType

pub record GameObject : Type 0 where
  pub type : GameObjectType
  pub name : List ℕ
  pub object_id : ℕ
  pub is_active : Bool

unfoldable pub new_game_object : GameObjectType → List ℕ → ℕ → GameObject
new_game_object type name object_id = record {
  type = type;
  name = name;
  object_id = object_id;
  is_active = true;
}

unfoldable pub clone_game_object : GameObject → GameObject
clone_game_object o = record (new_game_object o.type o.name o.object_id) { is_active = o.is_active }

pub record Player : Type 0 where
  pub player_name : List ℕ
  pub player_id : ℕ
  pub level : ℕ
  pub experience : ℕ
  pub map_id : ℕ
  pub channel_id : ℕ

unfoldable pub new_player : List ℕ → ℕ → ℕ → ℕ → Player
new_player name id channel_id map_id = record {
  player_name = name;
  player_id = id;
  level = 1;
  experience = 0;
  map_id = map_id;
  channel_id = channel_id;
}

unfoldable pub clone_player : Player → Player
clone_player p = record (new_player p.player_name p.player_id p.channel_id p.map_id) {
  level = p.level;
  experience = p.experience;
}

pub record Monster : Type 0 where
  pub monster_type : ℕ
  pub level : ℕ
  pub hp : ℕ
  pub max_hp : ℕ
  pub target_entity : ℕ

unfoldable pub new_monster : ℕ → ℕ → Monster
new_monster type level = record {
  monster_type = type;
  level = level;
  hp = 100;
  max_hp = 100;
  target_entity = 0;
}

unfoldable pub clone_monster : Monster → Monster
clone_monster m = record (new_monster m.monster_type m.level) {
  hp = m.hp;
  max_hp = m.max_hp;
  target_entity = m.target_entity;
}

pub record Npc : Type 0 where
  pub npc_type : ℕ
  pub npc_name : List ℕ
  pub level : ℕ
  pub is_interactable : Bool

unfoldable pub new_npc : ℕ → List ℕ → Npc
new_npc type name = record { npc_type = type; npc_name = name; level = 1; is_interactable = true }

unfoldable pub clone_npc : Npc → Npc
clone_npc n = record (new_npc n.npc_type n.npc_name) {
  level = n.level;
  is_interactable = n.is_interactable;
}

pub record Item : Type 0 where
  pub item_id : ℕ
  pub item_name : List ℕ
  pub item_type : ℕ
  pub quantity : ℕ
  pub is_pickupable : Bool

unfoldable pub new_item : ℕ → List ℕ → ℕ → Item
new_item id name type = record {
  item_id = id;
  item_name = name;
  item_type = type;
  quantity = 1;
  is_pickupable = true;
}

unfoldable pub clone_item : Item → Item
clone_item i = record (new_item i.item_id i.item_name i.item_type) {
  quantity = i.quantity;
  is_pickupable = i.is_pickupable;
}

-- A component of any of these types, and the clone() that its type selects.
pub data Component : Type 0 where
  of_object : GameObject → Component
  of_player : Player → Component
  of_monster : Monster → Component
  of_npc : Npc → Component
  of_item : Item → Component
  of_health : Health → Component
  of_status : Status → Component

unfoldable pub clone : Component → Component
clone (of_object c) = of_object (clone_game_object c)
clone (of_player c) = of_player (clone_player c)
clone (of_monster c) = of_monster (clone_monster c)
clone (of_npc c) = of_npc (clone_npc c)
clone (of_item c) = of_item (clone_item c)
clone (of_health c) = of_health (clone_health c)
clone (of_status c) = of_status (clone_status c)

-- A clone has every field of its original: none keeps the value that the constructor gave it.
pub clone_same : (c : Component) → clone c ≡ c
unfolding clone clone_game_object clone_player clone_monster clone_npc clone_item clone_health
    clone_status new_game_object new_player new_monster new_npc new_item new_health new_status
clone_same (of_object c) = refl
clone_same (of_player c) = refl
clone_same (of_monster c) = refl
clone_same (of_npc c) = refl
clone_same (of_item c) = refl
clone_same (of_health c) = refl
clone_same (of_status c) = refl
