-- ===== src/Game/Persistence/Jobs.antt =====
-- What the threads of the database do with the jobs, and the flush that posts them.
use ecs_asio_server.Common.{
  ℕ, suc, ◌+◌, ◌≡◌, refl, List, [], ◌∷◌, ◌++◌, Bool, true, false, ◌&&◌, Option, none, some, length,
  length-append, if◌then◌else◌, arith,
}
use ecs_asio_server.Common.Tables.{find}
use ecs_asio_server.Ecs.Entities.{contains}
use ecs_asio_server.Ecs.Store.{get}
use ecs_asio_server.Database.PlayerDao.{Reply, Attempt, find_or_create, save_position, save_stats}
use ecs_asio_server.Database.FailureSink.{FailureSink, record_snapshot, line_of}
use ecs_asio_server.Game.Persistence.{
  DbServer, Job, flush, Saved, Found, PlayerRecord, pos_of, map_of,
}

abbrev pub save_position_text : List ℕ
save_position_text =
    b's' ∷ b'a' ∷ b'v' ∷ b'e' ∷ b'_' ∷ b'p' ∷ b'o' ∷ b's' ∷ b'i' ∷ b't' ∷ b'i' ∷ b'o' ∷ b'n' ∷ []

abbrev pub save_stats_text : List ℕ
save_stats_text = b's' ∷ b'a' ∷ b'v' ∷ b'e' ∷ b'_' ∷ b's' ∷ b't' ∷ b'a' ∷ b't' ∷ b's' ∷ []

abbrev pub on_close_text : List ℕ
on_close_text = b'o' ∷ b'n' ∷ b'_' ∷ b'c' ∷ b'l' ∷ b'o' ∷ b's' ∷ b'e' ∷ []

abbrev pub db_write_failed : List ℕ
db_write_failed =
    b'd' ∷ b'b' ∷ b'_' ∷ b'w' ∷ b'r' ∷ b'i' ∷ b't' ∷ b'e' ∷ b'_' ∷ b'f' ∷ b'a' ∷ b'i' ∷ b'l' ∷ b'e'
    ∷ b'd' ∷ []

-- How a job goes: the replies of the database to its two calls, a std::exception with what it says, or
-- any other exception.
pub data Course : Type 0 where
  replied : (ℕ → Reply) → (ℕ → Reply) → Course
  threw : List ℕ → Course
  threw_other : Course

-- The lines of a sink, in the file and on stderr.
abbrev pub lines : FailureSink → ℕ
lines sink = length sink.file + length sink.stderr

abbrev pub both_ok : Course → Bool
both_ok (replied positions stats) = (save_position positions).0 && (save_stats stats).0
both_ok (threw what) = false
both_ok threw_other = true

-- `format` is std::snprintf: what it is given are the snapshot, its operation and attempts, and the two
-- texts that went through esc. `fails` says whether the stream of the sink fails.
module _ (format : Saved → List ℕ → ℕ → List ℕ → List ℕ → List ℕ) (fails : Bool) where
  abbrev pub keep_line : List ℕ → ℕ → List ℕ → Saved → FailureSink → FailureSink
  keep_line operation attempts error_msg s sink =
      record_snapshot (format s operation attempts) fails s.player_name error_msg sink

  unfoldable pub run_save : Course → Saved → FailureSink → FailureSink
  run_save (replied positions stats) s sink =
      let pos_ok = (save_position positions).0 in
      let stats_ok = (save_stats stats).0 in
      if pos_ok && stats_ok
      then sink
      else keep_line (if pos_ok then save_stats_text else save_position_text) 3 db_write_failed s
          sink
  run_save (threw what) s sink = keep_line on_close_text 1 what s sink
  run_save threw_other s sink = sink

  keep_line-lines :
      (operation : List ℕ) (attempts : ℕ) (error_msg : List ℕ) (s : Saved) (sink : FailureSink)
      → lines (keep_line operation attempts error_msg s sink) ≡ suc (lines sink)
  unfolding record_snapshot
  keep_line-lines operation attempts error_msg s sink =
      let line = line_of (format s operation attempts) s.player_name error_msg in
      ground (arith, length-append sink.file (line ∷ []), length-append sink.stderr (line ∷ []))

  -- The job that saves a player leaves the sink alone if both calls succeed, and adds one line to it,
  -- in the file or on stderr, if one of them fails or a std::exception is thrown. After any other
  -- exception nothing is recorded.
  pub run_save-lines :
      (c : Course) (s : Saved) (sink : FailureSink)
      → lines (run_save c s sink) ≡ (if both_ok c then lines sink else suc (lines sink))
  unfolding run_save
  run_save-lines (replied positions stats) s sink =
      let pos_ok = (save_position positions).0 in
      let operation = if pos_ok then save_stats_text else save_position_text in
      ground (arith, keep_line-lines operation 3 db_write_failed s sink)
  run_save-lines (threw what) s sink = keep_line-lines on_close_text 1 what s sink
  run_save-lines threw_other s sink = refl

-- The SELECT of a login gives none where it throws.
unfoldable pub run_look_up : Option (ℕ → Attempt PlayerRecord) → Option PlayerRecord
run_look_up none = none
run_look_up (some reply) = (find_or_create reply).0

-- The end of the job of a login: it posts to the io_context.
unfoldable pub answer_look_up : ℕ → List ℕ → Option (ℕ → Attempt PlayerRecord) → DbServer → DbServer
answer_look_up channel_id player_name reply d =
    let found : Found = record {
      channel_id = channel_id;
      player_name = player_name;
      rec = run_look_up reply;
    } in
    record d { callbacks = d.callbacks ++ (found ∷ []) }

-- An entry of flush_players, for a channel that has an entity and a strand.
abbrev pub flush_entry : ℕ → ℕ → Option ℕ → DbServer → List (ℕ × Job) → List (ℕ × Job)
flush_entry channel_id db_id none d rest = rest
flush_entry channel_id db_id (some entity) d rest =
    let s = d.world.service in
    let pos = pos_of (get entity s.positions) in
    let map_id = map_of (get entity s.players) in
    if contains channel_id d.db_strands then (channel_id, flush db_id pos map_id) ∷ rest else rest

unfoldable pub flush_entries : List (ℕ × ℕ) → DbServer → List (ℕ × Job)
flush_entries [] d = []
flush_entries ((channel_id, db_id) ∷ ids) d =
    flush_entry channel_id db_id (find channel_id d.world.channel_to_entity) d (flush_entries ids d)

unfoldable pub flush_players : DbServer → DbServer
flush_players d =
    if d.has_dao then record d { jobs = d.jobs ++ flush_entries d.channel_to_db_id d } else d
