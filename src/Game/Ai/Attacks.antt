-- ===== src/Game/Ai/Attacks.antt =====
-- A monster that attacks its target until it is dead.
use ecs_asio_server.Common.{
  ℕ, zero, suc, ◌+◌, ◌-◌, ◌*◌, ◌<◌, ◌≡◌, ◌≢◌, sym, ◌∙◌, true, false, some, ltb, if◌then◌else◌,
  arith, lt→ltb, subst,
}
use ecs_asio_server.Ecs.Store.{get}
use ecs_asio_server.Ecs.Store.Laws.{get-add}
use ecs_asio_server.Ecs.Health.{Health}
use ecs_asio_server.Ecs.Health as Health
use ecs_asio_server.Ecs.Objects.{Monster}
use ecs_asio_server.Game.World.{Service}
use ecs_asio_server.Game.Floats.{Floats}
use ecs_asio_server.Game.Ai.{aim, wound, set_target, clear_target, attack_target, update_ai_state}

-- A number of turns of one monster.
pub turns : Floats → ℕ → ℕ → Service → Service
turns fl entity zero s = s
turns fl entity (suc n) s = update_ai_state fl entity (turns fl entity n s)

-- The monster m has the target t, whose Health is h.
pub record Fight (entity target : ℕ) (m : Monster) (h : Health) (s : Service) : Type 0 where
  pub monster : get entity s.monsters ≡ some m
  pub aimed : m.target_entity ≡ target
  pub alone : target ≢ 0
  pub health : get target s.healths ≡ some h
  pub alive : h.is_alive ≡ ltb 0 h.hp

module _ (fl : Floats) (entity target : ℕ) (m : Monster) where
  strike_lem :
      (h : Health) (s : Service)
      → Fight entity target m h s
      → h.is_alive ≡ true
      → update_ai_state fl entity s ≡ wound target (some h) s
  unfolding update_ai_state attack_target
  strike_lem h s f lives = ground (arith, f.monster, f.aimed, f.alone, f.health, lives)

  forget_lem :
      (h : Health) (s : Service)
      → Fight entity target m h s
      → h.is_alive ≡ false
      → update_ai_state fl entity s ≡ aim entity 0 (some m) s
  unfolding update_ai_state clear_target set_target
  forget_lem h s f dead = ground (arith, f.monster, f.aimed, f.alone, f.health, dead)

  wound_lem :
      (h : Health) (s : Service)
      → Fight entity target m h s
      → Fight entity target m (Health.take_damage 10 h) (wound target (some h) s)
  unfolding Health.take_damage
  wound_lem h s f = record {
    monster = f.monster;
    aimed = f.aimed;
    alone = f.alone;
    health = ground (arith, get-add target target (Health.take_damage 10 h) s.healths);
    alive = ground (arith, f.alive);
  }

  hp_lem : (h : Health) → (Health.take_damage 10 h).hp ≡ h.hp - 10
  unfolding Health.take_damage
  hp_lem h = ground arith

  -- After n turns the target has lost 10 for each, and the fight goes on.
  turns-Fight :
      (n : ℕ) (h : Health) (s : Service)
      → Fight entity target m h s
      → 10 * n < h.hp + 10
      → (after : Health) × (after.hp ≡ h.hp - 10 * n)
        × Fight entity target m after (turns fl entity n s)
  unfolding turns
  turns-Fight zero h s f k = (h, omega arith, f)
  turns-Fight (suc n) h s f k =
      let (g, e, now) = turns-Fight n h s f (omega arith) in
      let hit = Health.take_damage 10 g in
      let lives : g.is_alive ≡ true = now.alive ∙ lt→ltb 0 g.hp (omega (arith, e)) in
      (
        hit,
        omega (arith, e, hp_lem g),
        subst (Fight entity target m hit) (sym (strike_lem g (turns fl entity n s) now lives))
            (wound_lem g (turns fl entity n s) now),
      )

  -- A monster has a target whose is_alive says whether hp is left, and takes 10 of its hp with every
  -- turn: after n turns, where 10 * n is less than the hp and 10, the target has lost 10 * n, to 0 at
  -- most, is alive exactly if hp is left, and is the target still. The next turn takes 10 again if the
  -- target is alive; else it clears the target of the monster and changes nothing else.
  pub turns-kill :
      (n : ℕ) (h : Health) (s : Service)
      → Fight entity target m h s
      → 10 * n < h.hp + 10
      → (after : Health) × (get target (turns fl entity n s).healths ≡ some after)
        × (after.hp ≡ h.hp - 10 * n)
        × (after.is_alive ≡ ltb (10 * n) h.hp)
        × (get entity (turns fl entity n s).monsters ≡ some m)
        × (turns fl entity (suc n) s ≡ (
            if ltb (10 * n) h.hp
            then wound target (some after) (turns fl entity n s)
            else aim entity 0 (some m) (turns fl entity n s)))
  unfolding turns
  turns-kill n h s f k =
      let (g, e, now) = turns-Fight n h s f k in
      let t = turns fl entity n s in
      (
        g,
        now.health,
        e,
        ground (arith, now.alive, e),
        now.monster,
        ground (arith, now.alive, e, strike_lem g t now, forget_lem g t now),
      )
