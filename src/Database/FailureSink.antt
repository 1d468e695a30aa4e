-- ===== src/Database/FailureSink.antt =====
-- server/db/failure_sink.cpp: the record of a save that failed. The text that std::snprintf makes of a
-- snapshot, with the strings that are given to it, is a parameter.
pub mod Escape
use ecs_asio_server.Common.{ℕ, List, [], ◌∷◌, ◌++◌, Bool, true, false, take, ◌==◌, if◌then◌else◌}

-- The lambda `esc`.
unfoldable pub esc : List ℕ → List ℕ
esc [] = []
esc (c ∷ src) =
    let rest = esc src in
    if c == b'"'
    then b'\\' ∷ (b'"' ∷ rest)
    else if c == b'\\'
    then b'\\' ∷ (b'\\' ∷ rest)
    else c ∷ rest

pub record FailureSink : Type 0 where
  pub is_open : Bool
  pub file : List (List ℕ)
  pub stderr : List (List ℕ)

-- `char line[1024]`: std::snprintf keeps one byte for the end.
abbrev pub line_of : (List ℕ → List ℕ → List ℕ) → List ℕ → List ℕ → List ℕ
line_of format player_name error_msg = take 1023 (format (esc player_name) (esc error_msg))

-- `fails` says whether the stream fails; what a failed write leaves in the file is not kept.
unfoldable pub record_snapshot :
    (List ℕ → List ℕ → List ℕ) → Bool → List ℕ → List ℕ → FailureSink → FailureSink
record_snapshot format fails player_name error_msg s =
    let line = line_of format player_name error_msg in
    if s.is_open
    then if fails
      then record s { stderr = s.stderr ++ (line ∷ []) }
      else record s { file = s.file ++ (line ∷ []) }
    else record s { stderr = s.stderr ++ (line ∷ []) }
