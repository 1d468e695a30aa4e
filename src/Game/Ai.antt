-- ===== src/Game/Ai.antt =====
-- server/game/systems/ai_system.cpp: the monsters that look for a target and attack it, and the NPCs that
-- walk about.
pub mod Targets
pub mod Attacks
use ecs_asio_server.Common.{
  ℕ, List, [], ◌∷◌, map, Bool, ◌||◌, ◌&&◌, not, Option, none, some, ◌==◌, if◌then◌else◌,
}
use ecs_asio_server.Ecs.Store.{get, add}
use ecs_asio_server.Ecs.Health.{Health}
use ecs_asio_server.Ecs.Health as Health
use ecs_asio_server.Ecs.Objects.{Monster, Npc, Player}
use ecs_asio_server.Game.World.{Position, Service}
use ecs_asio_server.Game.Floats.{Floats, norm, apart, scaled}

-- 0.1f, 0.5f, 10.0f and 20.0f, and the largest float.
abbrev pub tenth : ℕ
tenth = 1036831949

abbrev pub half : ℕ
half = 1056964608

abbrev pub ten : ℕ
ten = 1092616192

abbrev pub sight : ℕ
sight = 1101004800

abbrev pub float_max : ℕ
float_max = 2139095039

abbrev pub aim : ℕ → ℕ → Option Monster → Service → Service
aim entity target none s = s
aim entity target (some m) s = record s {
  monsters = add entity (record m { target_entity = target }) s.monsters;
}

unfoldable pub set_target : ℕ → ℕ → Service → Service
set_target entity target s = aim entity target (get entity s.monsters) s

unfoldable pub clear_target : ℕ → Service → Service
clear_target entity = set_target entity 0

-- A Velocity is added where there is none.
unfoldable pub set_speed : ℕ → Position → Service → Service
set_speed entity v s = record s { velocities = add entity v s.velocities }

abbrev pub wound : ℕ → Option Health → Service → Service
wound target none s = s
wound target (some h) s = record s { healths = add target (Health.take_damage 10 h) s.healths }

abbrev pub strikes : Option Monster → Service → Service
strikes none s = s
strikes (some m) s =
    if m.target_entity == 0 then s else wound m.target_entity (get m.target_entity s.healths) s

unfoldable pub attack_target : ℕ → Service → Service
attack_target entity s = strikes (get entity s.monsters) s

abbrev pub living : Option Health → Bool
living none = Bool.false
living (some h) = h.is_alive

module _ (fl : Floats) where
  abbrev pub chase : ℕ → ℕ → Option Position → Option Position → Service → Service
  chase entity speed none target s = s
  chase entity speed (some p) none s = s
  chase entity speed (some p) (some q) s =
      let d = apart fl q p in
      let distance = norm fl d in
      if fl.lt tenth distance then set_speed entity (scaled fl distance speed d) s else s

  abbrev pub chase_target : ℕ → ℕ → Option Monster → Service → Service
  chase_target entity speed none s = s
  chase_target entity speed (some m) s =
      if m.target_entity == 0
      then s
      else chase entity speed (get entity s.positions) (get m.target_entity s.positions) s

  unfoldable pub move_towards_target : ℕ → ℕ → Service → Service
  move_towards_target entity speed s = chase_target entity speed (get entity s.monsters) s

  -- The direction that is drawn, cut to the range, at half its speed.
  abbrev pub stroll : ℕ → Position → Position
  stroll range d =
      let distance = norm fl d in
      let cut : Position = if fl.lt range distance then scaled fl distance range d else d in
      record { x = fl.times cut.x half; y = fl.times cut.y half; z = fl.times cut.z half }

  -- The loop of find_nearest_target over the players.
  abbrev pub nearer : Position → ℕ → Option Position → ℕ × ℕ → ℕ × ℕ
  nearer own player none best = best
  nearer own player (some p) best =
      let distance = norm fl (apart fl p own) in
      if fl.lt distance best.1 && fl.lt distance sight then (player, distance) else best

  unfoldable pub nearest_loop : Position → List (ℕ × Position) → List (ℕ × Player) → ℕ × ℕ → ℕ × ℕ
  nearest_loop own positions [] best = best
  nearest_loop own positions ((player, c) ∷ players) best =
      nearest_loop own positions players (nearer own player (get player positions) best)

  abbrev pub look_from : ℕ → Option Position → Service → Service
  look_from entity none s = s
  look_from entity (some own) s =
      let best = nearest_loop own s.positions s.players (0, float_max) in
      if best.0 == 0 then s else set_target entity best.0 s

  unfoldable pub find_nearest_target : ℕ → Service → Service
  find_nearest_target entity s = look_from entity (get entity s.positions) s

  abbrev pub think : ℕ → Option Monster → Service → Service
  think entity none s = s
  think entity (some m) s =
      if m.target_entity == 0
      then find_nearest_target entity s
      else if living (get m.target_entity s.healths)
      then attack_target entity s
      else clear_target entity s

  unfoldable pub update_ai_state : ℕ → Service → Service
  update_ai_state entity s = think entity (get entity s.monsters) s

  -- The loop over what get_components found before it.
  unfoldable pub update_monsters : List (ℕ × Monster) → Service → Service
  update_monsters [] s = s
  update_monsters ((entity, m) ∷ monsters) s = update_monsters monsters (update_ai_state entity s)

  unfoldable pub update_monster_ai : Service → Service
  update_monster_ai s = update_monsters s.monsters s

-- The random numbers: `draw` gives the number between -1.0f and 1.0f that comes from the state of the
-- generator, and the state behind it.
module _ (fl : Floats) (draw : ℕ → ℕ × ℕ) where
  abbrev pub draw_direction : ℕ → Position × ℕ
  draw_direction g =
      let (x, g1) = draw g in
      let (y, g2) = draw g1 in let (z, g3) = draw g2 in (record { x = x; y = y; z = z }, g3)

  abbrev pub walk : ℕ → ℕ → Option Position → Service × ℕ → Service × ℕ
  walk entity range none (s, g) = (s, g)
  walk entity range (some p) (s, g) =
      let (d, g') = draw_direction g in (set_speed entity (stroll fl range d) s, g')

  unfoldable pub patrol : ℕ → ℕ → Service × ℕ → Service × ℕ
  patrol entity range (s, g) = walk entity range (get entity s.positions) (s, g)

  -- The store of the NPCs is not among those of the Service.
  unfoldable pub update_npc_ai : List (ℕ × Npc) → Service × ℕ → Service × ℕ
  update_npc_ai [] sg = sg
  update_npc_ai ((entity, npc) ∷ npcs) sg = update_npc_ai npcs (patrol entity ten sg)

  unfoldable pub update : List (ℕ × Npc) → Service × ℕ → Service × ℕ
  update npcs (s, g) = update_npc_ai npcs (update_monster_ai fl s, g)
