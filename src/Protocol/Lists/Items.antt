-- ===== src/Protocol/Lists/Items.antt =====
-- combat_result_notify, serialized and parsed.
use ecs_asio_server.Common.{
  ℕ, ◌^◌, ◌≤◌, ◌<◌, ◌≡◌, refl, List, [], ◌∷◌, ◌++◌, append_assoc, length, flat, map, All,
}
use native.Mathlib.Nat.{mod-eq_of_lt}
use ecs_asio_server.Wire.{ok, ◌>>=◌, ◌>>◌, write_le32, IsU32, need_front, run_parser, sizes}
use ecs_asio_server.Protocol.Lists.Defs.{
  CombatResultNotify, serialize_combat_result_notify, parse_combat_result_notify, read_entries,
  read_item,
}

read_item-write_le32 : (v : ℕ) → IsU32 v → (s : List ℕ) → read_item (write_le32 v ++ s) ≡ ok v s
unfolding read_item
read_item-write_le32 v h s = simp (run_parser, h)

read_items :
    (xs : List ℕ)
    → All IsU32 xs
    → (s : List ℕ) → read_entries (length xs) read_item (flat (map write_le32 xs) ++ s) ≡ ok xs s
unfolding read_entries
read_items [] h s = refl
read_items (x ∷ xs) h s = simp (append_assoc, read_item-write_le32 x h.0, read_items xs h.1, ◌>>=◌)

combat_result_notify_size :
    (m : CombatResultNotify) → 20 ≤ length (serialize_combat_result_notify m)
unfolding serialize_combat_result_notify
combat_result_notify_size m = omega sizes

-- A combat_result_notify is read back with all its items, in their order.
pub parse-serialize_combat_result_notify :
    (m : CombatResultNotify) (rest : List ℕ)
    → IsU32 m.winner_id
      × IsU32 m.loser_id
      × IsU32 m.experience_gained
      × IsU32 m.gold_gained
      × IsU32 m.timestamp
    → All IsU32 m.item_ids
    → length m.item_ids < 2 ^ 32
    → parse_combat_result_notify (serialize_combat_result_notify m ++ rest) ≡ ok m rest
unfolding parse_combat_result_notify
parse-serialize_combat_result_notify m rest h k l =
    rw (need_front 20 (serialize_combat_result_notify m) (combat_result_notify_size m), ◌>>=◌, ◌>>◌)
      (unfold serialize_combat_result_notify in
        simp (run_parser, h.0, h.1, h.2, h.3, h.4, mod-eq_of_lt l, l, read_items m.item_ids k))
