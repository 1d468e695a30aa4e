-- ===== src/Protocol/Lists/Objects.antt =====
-- map_objects_update, whose parse() does not move past the objects that it reads.
use ecs_asio_server.Common.{
  ℕ, zero, suc, ◌^◌, ◌≤◌, ◌<◌, ◌≡◌, refl, List, ◌∷◌, ◌++◌, length, flat, map, replicate, drop,
}
use native.Mathlib.Nat.{mod-eq_of_lt}
use ecs_asio_server.Wire.{
  Parser, ok, ◌>>=◌, ◌>>◌, write_le32, IsU32, IsText, need_front, run_parser, sizes,
}
use ecs_asio_server.Protocol.Map.Defs.{
  MapObjectInfo, serialize_map_object_info, parse_map_object_info,
}
use ecs_asio_server.Protocol.Map.RoundTrip.{parse-serialize_map_object_info}
use ecs_asio_server.Protocol.Lists.Defs.{
  MapObjectsUpdate, serialize_map_objects_update, parse_map_objects_update, read_entries, by_value,
}

by_value_ok {ℓ} :
    {A : Type ℓ} (entry : Parser A) (s : List ℕ) {a : A} {r : List ℕ}
    → entry s ≡ ok a r
    → by_value entry s ≡ ok a s
unfolding by_value
by_value_ok entry s e = rw (e, by_value)

-- A loop whose `p` does not move reads one entry again and again.
read_entries-by_value {ℓ} :
    {A : Type ℓ} (entry : Parser A) (n : ℕ) (s : List ℕ) {a : A} {r : List ℕ}
    → entry s ≡ ok a r
    → read_entries n (by_value entry) s ≡ ok (replicate n a) s
unfolding read_entries
read_entries-by_value entry zero s e = refl
read_entries-by_value entry (suc n) s e =
    simp (by_value_ok entry s e, read_entries-by_value entry n s e, ◌>>=◌)

map_objects_update_size : (m : MapObjectsUpdate) → 12 ≤ length (serialize_map_objects_update m)
unfolding serialize_map_objects_update
map_objects_update_size m = omega sizes

drop_words :
    (a b c d : ℕ) (s : List ℕ)
    → drop 16 (write_le32 a ++ (write_le32 b ++ (write_le32 c ++ (write_le32 d ++ s)))) ≡ s
unfolding write_le32
drop_words a b c d s = refl

-- The values that the fields of a map_object_info can hold.
abbrev pub FitsObject : MapObjectInfo → Type 0
FitsObject m =
    IsU32 m.object_id
    × IsText m.object_name
    × IsU32 m.x
    × IsU32 m.y
    × IsU32 m.z
    × IsU32 m.rotation
    × IsU32 m.level
    × IsU32 m.hp
    × IsU32 m.max_hp

-- A map_objects_update with at least one object is read back with its map_id and update_type, as many
-- copies of its first object as it has objects, and the id of the first object for its timestamp.
pub parse-serialize_map_objects_update :
    (map_id update_type timestamp : ℕ) (first : MapObjectInfo) (others : List MapObjectInfo)
    (rest : List ℕ)
    → IsU32 map_id × IsU32 update_type
    → FitsObject first
    → length (first ∷ others) < 2 ^ 32
    → let bytes =
        serialize_map_objects_update (record {
          map_id = map_id;
          update_type = update_type;
          objects = first ∷ others;
          timestamp = timestamp;
        })
        ++ rest in
      parse_map_objects_update bytes
      ≡ ok
          (record {
            map_id = map_id;
            update_type = update_type;
            objects = replicate (length (first ∷ others)) first;
            timestamp = first.object_id;
          })
          (drop 16 bytes)
unfolding parse_map_objects_update
parse-serialize_map_objects_update map_id update_type timestamp first others rest h k l =
    let tail = flat (map serialize_map_object_info others) ++ (write_le32 timestamp ++ rest) in
    let e =
      read_entries-by_value parse_map_object_info (length (first ∷ others))
        (serialize_map_object_info first ++ tail) (parse-serialize_map_object_info first tail k) in
    rw (need_front 12 (serialize_map_objects_update _) (map_objects_update_size _), ◌>>=◌, ◌>>◌)
      (unfold serialize_map_objects_update in
        simp (run_parser, h.0, h.1, mod-eq_of_lt l, l, e)
          (unfold serialize_map_object_info in simp (run_parser, k.0, drop_words)))
