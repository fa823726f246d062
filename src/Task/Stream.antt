-- ===== src/Task/Stream.antt =====
-- frontend/src/api/task-stream.ts: the event stream of the tasks. A text is the list of its code
-- points; the decoder that makes texts of the bytes, `trim` and `JSON.parse` are the host's.
use Prim.Native.Char.{code}
use Prim.Native.String
use Prim.Native.String.{String}
use mvp_qcp.Base.{
  ℕ, suc, Bool, true, false, not, ◌&&◌, ◌||◌, Option, none, some, List, [], ◌∷◌, ◌++◌, ◌==◌,
  if◌then◌else◌, length, drop,
}
pub mod Blocks
pub mod Chunks

abbrev pub Text : Type 0
Text = List ℕ

abbrev pub codes : String → Text
codes String.[] = []
codes (String.◌∷◌ c s) = code c ∷ codes s

-- `J` is the type of the values that JSON.parse returns; where it throws, it returns nothing.
pub record StreamHost (J : Type 0) : Type 0 where
  pub trim : Text → Text
  pub parse_json : Text → Option J

-- What the callbacks are called with.
pub data Notice (J : Type 0) : Type 0 where
  on_status on_heartbeat on_hybrid_iteration : J → Notice J
  on_error on_disconnect : Notice J

-- Which of the optional callbacks are given; one for errors and one for the end are.
pub record TaskStreamCallbacks : Type 0 where
  pub with_heartbeat : Bool
  pub with_hybrid_iteration : Bool

abbrev pub newline : ℕ
newline = 10

unfoldable pub same_text : Text → Text → Bool
same_text [] [] = true
same_text [] (d ∷ ds) = false
same_text (c ∷ cs) [] = false
same_text (c ∷ cs) (d ∷ ds) = let rest = same_text cs ds in c == d && rest

-- What follows the prefix, where the text starts with it: `startsWith` and `slice`.
unfoldable pub after_prefix : Text → Text → Option Text
after_prefix [] text = some text
after_prefix (p ∷ ps) [] = none
after_prefix (p ∷ ps) (c ∷ cs) = let rest = after_prefix ps cs in if p == c then rest else none

-- `text.split("\n")`: the first line and the others.
unfoldable pub split_lines : Text → Text × List Text
split_lines [] = ([], [])
split_lines (c ∷ cs) =
    let (line, lines) = split_lines cs in
    if c == newline then ([], line ∷ lines) else (c ∷ line, lines)

abbrev pub prefixed : ℕ → List Text × Text → List Text × Text
prefixed c ([], rest) = ([], c ∷ rest)
prefixed c (block ∷ blocks, rest) = ((c ∷ block) ∷ blocks, rest)

-- `text.split("\n\n")`: the blocks that are complete, and what follows the last.
unfoldable pub split_blocks : Text → List Text × Text
split_blocks [] = ([], [])
split_blocks (c ∷ []) = ([], c ∷ [])
split_blocks (c ∷ d ∷ cs) = elim (c == newline && d == newline) [
  | true ↦ let (blocks, rest) = split_blocks cs in ([] ∷ blocks, rest)
  | false ↦ prefixed c (split_blocks (d ∷ cs))
]

module _ {J : Type 0} (host : StreamHost J) where
  -- The loop over the lines of a block.
  unfoldable pub read_lines : Text → Text → List Text → Text × Text
  unfolding after_prefix
  read_lines event_name data_text [] = (event_name, data_text)
  read_lines event_name data_text (line ∷ lines) = elim (after_prefix (codes "event:") line) [
    | some name ↦ read_lines (host.trim name) data_text lines
    | none ↦ elim (after_prefix (codes "data:") line) [
      | some text ↦ read_lines event_name (data_text ++ host.trim text) lines
      | none ↦ read_lines event_name data_text lines
    ]
  ]

  -- The callback for an event.
  unfoldable pub notify : TaskStreamCallbacks → Text → J → List (Notice J)
  unfolding same_text
  notify callbacks event_name value =
      if same_text event_name (codes "task_status")
      then on_status value ∷ []
      else if same_text event_name (codes "heartbeat") && callbacks.with_heartbeat
      then on_heartbeat value ∷ []
      else if same_text event_name (codes "hybrid_iteration") && callbacks.with_hybrid_iteration
      then on_hybrid_iteration value ∷ []
      else []

  -- Nothing where JSON.parse throws.
  unfoldable pub parse_event_block : TaskStreamCallbacks → Text → Option (List (Notice J))
  unfolding split_lines read_lines notify
  parse_event_block callbacks block =
      let (line, lines) = split_lines block in
      let (event_name, data_text) = read_lines (codes "message") [] (line ∷ lines) in
      elim data_text [
        | [] ↦ some []
        | c ∷ cs ↦ elim (host.parse_json (c ∷ cs)) [
          | none ↦ none
          | some value ↦ some (notify callbacks event_name value)
        ]
      ]

-- Whether a callback closes the connection, given all calls of the callbacks up to that one, the
-- latest first.
abbrev pub Closing : Type 0 → Type 0
Closing J = List (Notice J) → Bool

-- `closed`, after the calls that are given, the latest first
abbrev pub is_closed : {J : Type 0} → Closing J → List (Notice J) → Bool
is_closed closes [] = false
is_closed closes (notice ∷ before) = is_closed closes before || closes (notice ∷ before)

-- The calls with some more behind them.
abbrev pub called : {J : Type 0} → List (Notice J) → List (Notice J) → List (Notice J)
called [] before = before
called (notice ∷ notices) before = called notices (notice ∷ before)

-- How the reading ends: the stream is done, a read fails, or the connection is closed by its owner,
-- between two rounds.
pub data Ending : Type 0 where
  stream_done read_failed closed_by_owner : Ending

-- From here on, a function is given the calls before, the latest first, and returns those that follow,
-- the first first.
module _ {J : Type 0} (closes : Closing J) where
  -- The `finally`.
  unfoldable pub disconnect : List (Notice J) → List (Notice J)
  disconnect before = if not (is_closed closes before) then on_disconnect ∷ [] else []

  -- The `catch`, and then the `finally`.
  unfoldable pub fail : List (Notice J) → List (Notice J)
  unfolding disconnect
  fail before =
      if not (is_closed closes before)
      then on_error ∷ disconnect (on_error ∷ before)
      else disconnect before

  abbrev pub end_notices : Ending → List (Notice J) → List (Notice J)
  end_notices stream_done before = disconnect before
  end_notices read_failed before = fail before
  end_notices closed_by_owner before = []

  -- The blocks of one round, in order, and then what follows. The loop over the blocks goes on where a
  -- callback has closed the connection.
  unfoldable pub deliver :
      StreamHost J
      → TaskStreamCallbacks
      → List Text
      → (List (Notice J) → List (Notice J))
      → List (Notice J)
      → List (Notice J)
  unfolding parse_event_block fail
  deliver host callbacks [] later before = later before
  deliver host callbacks (block ∷ blocks) later before =
      elim (parse_event_block host callbacks (host.trim block)) [
        | none ↦ fail before
        | some notices ↦ notices ++ deliver host callbacks blocks later (called notices before)
      ]

  -- The loop of `run`, over the texts that the decoder makes of what is read until the end.
  unfoldable pub read_stream :
      StreamHost J
      → TaskStreamCallbacks
      → Ending
      → Text
      → List Text
      → List (Notice J)
      → List (Notice J)
  unfolding split_blocks deliver disconnect
  read_stream host callbacks ending buffer [] before =
      if not (is_closed closes before) then end_notices ending before else disconnect before
  read_stream host callbacks ending buffer (chunk ∷ chunks) before =
      let (blocks, rest) = split_blocks (buffer ++ chunk) in
      if not (is_closed closes before)
      then deliver host callbacks blocks (read_stream host callbacks ending rest chunks) before
      else disconnect before

  -- `subscribeTaskStream`, from the answer on.
  unfoldable pub subscribe_task_stream :
      StreamHost J → TaskStreamCallbacks → Ending → List Text → List (Notice J)
  unfolding read_stream
  subscribe_task_stream host callbacks ending chunks =
      read_stream host callbacks ending [] chunks []
