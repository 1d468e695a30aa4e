-- ===== src/Game/Threads/Placement.antt =====
-- The players of the maps: where move_player_to_map and its kin put a player.
use ecs_asio_server.Common.{
  ℕ, ◌≡◌, ap, ◌∙◌, List, [], ◌∷◌, Bool, true, false, not, ◌&&◌, ◌||◌, Option, none, some, ◌==◌,
  if◌then◌else◌, arith, ==→eq, if_cases,
}
use ecs_asio_server.Common.Tables.{
  find, has_key, adjust, on_some, find-adjust, has_key-find, is_some_of, find-assign,
  has_key-adjust,
}
use ecs_asio_server.Ecs.Entities.{EntityManager, create_entity, contains, insert, erase}
use ecs_asio_server.Ecs.Entities.Accounts.{Unique}
use ecs_asio_server.Game.Threads.Map.{MapThread, add_player, remove_player}
use ecs_asio_server.Game.Threads.Manager.{
  MapThreadManager, update_player_map, move_player_to_map, get_player_map, map_or_none,
}

-- Whether a thread, if there is one, lists the channel.
abbrev pub has_player : ℕ → Option MapThread → Bool
has_player c none = false
has_player c (some t) = contains c t.local_players

contains-insert : (c d : ℕ) (xs : List ℕ) → contains d (insert c xs) ≡ (d == c || contains d xs)
unfolding insert contains
contains-insert c d xs = ground (arith, alike)
  where
    alike : contains c xs ≡ true → (d == c) ≡ true → contains d xs ≡ true
    alike h e = ap (λ x. contains x xs) (==→eq d c e) ∙ h

contains-erase_once :
    (c d : ℕ) (xs : List ℕ) → Unique xs → contains d (erase c xs) ≡ (not (d == c) && contains d xs)
unfolding contains erase
contains-erase_once c d [] o = ground arith
contains-erase_once c d (x ∷ xs) o = ground (arith, contains-erase_once c d xs o.1, o.0)

-- The list of a thread names each player once.
abbrev pub Listed : Option MapThread → Type 0
Listed none = Unit {0}
Listed (some t) = Unique t.local_players

has_player-add_player :
    (c d e : ℕ) (r : Option MapThread)
    → has_player d (on_some (add_player c e) r) ≡ ((d == c && is_some_of r) || has_player d r)
unfolding add_player
has_player-add_player c d e none = ground arith
has_player-add_player c d e (some t) = ground (arith, contains-insert c d t.local_players)

has_player-remove_player :
    (c d : ℕ) (r : Option MapThread)
    → Listed r
    → has_player d (on_some (remove_player c) r) ≡ (not (d == c) && has_player d r)
unfolding remove_player
has_player-remove_player c d none o = ground arith
has_player-remove_player c d (some t) o = contains-erase_once c d t.local_players o

-- Whether the thread of a map lists the channel.
abbrev pub in_map : ℕ → ℕ → MapThreadManager → Bool
in_map c map_id m = has_player c (find map_id m.map_threads)

module _ (c d id : ℕ) (t : List (ℕ × MapThread)) where
  left-has_player :
      (from : ℕ)
      → Listed (find id t)
      → has_player d (find id (adjust from (remove_player c) t))
        ≡ (if (id == from) && (d == c) then false else has_player d (find id t))
  left-has_player from v =
      ground
        (arith, find-adjust from id (remove_player c) t, has_player-remove_player c d (find id t) v)

  joined-has_player :
      (to e : ℕ)
      → has_player d (find id (adjust to (add_player c e) t))
        ≡ (if (id == to) && ((d == c) && has_key id t) then true else has_player d (find id t))
  joined-has_player to e = ground (
    arith,
    find-adjust to id (add_player c e) t,
    has_player-add_player c d e (find id t),
    has_key-find id t,
  )

-- After move_player_to_map, whatever maps there are: the thread of to_map lists the channel if that
-- map is there, and get_player_map gives to_map; if it is not there, the answer of get_player_map is
-- what it was. The thread of from_map lists the channel no longer, unless it is to_map. The other
-- threads list the channel as before, and every thread lists every other channel as before.
pub move_player_to_map-in_map :
    (c from to d id : ℕ) (m : MapThreadManager) (entities : EntityManager)
    → ((g : ℕ) → Listed (find g m.map_threads))
    → (in_map d id (move_player_to_map c from to m entities).0 ≡ (
        if d == c
        then if (id == to) && has_key to m.map_threads
          then true
          else if id == from
          then false
          else in_map d id m
        else in_map d id m))
      × (get_player_map d (move_player_to_map c from to m entities).0
          ≡ (if (d == c) && has_key to m.map_threads then to else get_player_map d m))
unfolding move_player_to_map update_player_map get_player_map
move_player_to_map-in_map c from to d id m entities v =
    if_cases P (has_key to left)
      (λ h. (
        ground (
          arith,
          h,
          key,
          left-has_player c d id m.map_threads from (v id),
          joined-has_player c d id left to (create_entity entities).1,
          alike,
        ),
        ground (arith, h, key, find-assign c d to m.player_map_mapping),
      ))
      (λ h. (
        ground (arith, h, key, left-has_player c d id m.map_threads from (v id)),
        ground (arith, h, key),
      ))
  where
    left : List (ℕ × MapThread)
    left = adjust from (remove_player c) m.map_threads

    key : has_key to left ≡ has_key to m.map_threads
    key = has_key-adjust from to (remove_player c) m.map_threads

    alike : (id == to) ≡ true → has_key id left ≡ has_key to left
    alike e = ap (λ x. has_key x left) (==→eq id to e)

    P : MapThreadManager × EntityManager → Type 0
    P r =
        (in_map d id r.0 ≡ (
          if d == c
          then if (id == to) && has_key to m.map_threads
            then true
            else if id == from
            then false
            else in_map d id m
          else in_map d id m))
        × (map_or_none (find d r.0.player_map_mapping) ≡ (
            if (d == c) && has_key to m.map_threads
            then to
            else map_or_none (find d m.player_map_mapping)))
