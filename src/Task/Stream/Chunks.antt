-- ===== src/Task/Stream/Chunks.antt =====
-- The calls of the callbacks, however the text of the stream is cut.
use mvp_qcp.Base.{
  ◌≡◌, refl, ap, sym, ◌∙◌, false, Bool-cases, Option-cases, inl, inr, none, some, if◌then◌else◌,
  List, [], ◌∷◌, ◌++◌, append_assoc, append_nil,
}
use mvp_qcp.Task.Stream.{
  Text, StreamHost, TaskStreamCallbacks, Notice, on_error, on_disconnect, split_blocks,
  parse_event_block, Closing, is_closed, called, Ending, stream_done, read_failed, closed_by_owner,
  disconnect, fail, end_notices, deliver, read_stream, subscribe_task_stream,
}
use mvp_qcp.Task.Stream.Blocks.{split-rest, split_blocks-append}

abbrev pub concat : List Text → Text
concat [] = []
concat (chunk ∷ chunks) = chunk ++ concat chunks

-- The calls up to the first that closes the connection, with that one. What is called after it
-- depends on how the text is cut: the rest of the round is delivered, and no other round.
abbrev pub until_closed :
    {J : Type 0} → Closing J → List (Notice J) → List (Notice J) → List (Notice J)
until_closed closes before [] = []
until_closed closes before (notice ∷ notices) =
    let rest = until_closed closes (notice ∷ before) notices in
    notice ∷ (if closes (notice ∷ before) then [] else rest)

-- The reading of a stream whose callbacks never close it.
abbrev open_end : {J : Type 0} → Ending → List (Notice J)
open_end stream_done = on_disconnect ∷ []
open_end read_failed = on_error ∷ on_disconnect ∷ []
open_end closed_by_owner = []

module _ {J : Type 0} (host : StreamHost J) (callbacks : TaskStreamCallbacks)
    (ending : Ending) where
  unfoldable deliver_open : List Text → List (Notice J) → List (Notice J)
  deliver_open [] later = later
  deliver_open (block ∷ blocks) later = elim (parse_event_block host callbacks (host.trim block)) [
    | none ↦ on_error ∷ on_disconnect ∷ []
    | some notices ↦ notices ++ deliver_open blocks later
  ]

  unfoldable read_open : Text → List Text → List (Notice J)
  unfolding deliver_open
  read_open buffer [] = open_end ending
  read_open buffer (chunk ∷ chunks) =
      let (blocks, rest) = split_blocks (buffer ++ chunk) in
      deliver_open blocks (read_open rest chunks)

  deliver_open-append :
      (blocks more : List Text) (later : List (Notice J))
      → deliver_open (blocks ++ more) later ≡ deliver_open blocks (deliver_open more later)
  unfolding deliver_open
  deliver_open-append [] more later = refl
  deliver_open-append (block ∷ blocks) more later =
      elim (Option-cases (parse_event_block host callbacks (host.trim block))) [
        | inl fails ↦ rw (fails, deliver_open) refl
        | inr (notices, parsed) ↦
            rw (parsed, deliver_open, deliver_open-append blocks more later) refl
      ]

  read_open-concat :
      (buffer : Text) (chunks : List Text)
      → split_blocks buffer ≡ ([], buffer)
      → read_open buffer chunks ≡ read_open buffer (concat chunks ∷ [])
  unfolding read_open deliver_open
  read_open-concat buffer [] e = rw (append_nil buffer, e) refl
  read_open-concat buffer (chunk ∷ chunks) e =
      let first = split_blocks (buffer ++ chunk) in
      let second = split_blocks (first.1 ++ concat chunks) in
      let all : split_blocks (buffer ++ (chunk ++ concat chunks))
          ≡ (first.0 ++ second.0, second.1) =
        ap split_blocks (sym (append_assoc buffer chunk (concat chunks)))
        ∙ split_blocks-append (buffer ++ chunk) (concat chunks) in
      ap (deliver_open first.0) (read_open-concat first.1 chunks (split-rest (buffer ++ chunk)))
      ∙ (sym (deliver_open-append first.0 second.0 (open_end ending))
          ∙ sym (ap (λ p. deliver_open p.0 (open_end ending)) all))

module _ {J : Type 0} (closes : Closing J) where
  -- Until the connection is closed, the calls are those of a reading that is not closed.
  abbrev Agree : (List (Notice J) → List (Notice J)) → List (Notice J) → Type 0
  Agree later plain =
      (before : List (Notice J))
      → is_closed closes before ≡ false
      → until_closed closes before (later before) ≡ until_closed closes before plain

  disconnect-Agree : Agree (disconnect closes) (on_disconnect ∷ [])
  unfolding disconnect
  disconnect-Agree before e = rw e refl

  fail-Agree : Agree (fail closes) (on_error ∷ on_disconnect ∷ [])
  unfolding fail disconnect
  fail-Agree before e = elim (Bool-cases (closes (on_error ∷ before))) [
    | inl now ↦ rw (e, now) refl
    | inr later ↦ rw (e, later) refl
  ]

  notices-Agree :
      (notices : List (Notice J)) (later : List (Notice J) → List (Notice J))
      (plain : List (Notice J))
      → Agree later plain
      → Agree (λ before. notices ++ later (called notices before)) (notices ++ plain)
  notices-Agree [] later plain h before e = h before e
  notices-Agree (notice ∷ notices) later plain h before e =
      elim (Bool-cases (closes (notice ∷ before))) [
        | inl now ↦ rw now refl
        | inr stays ↦
            let still : is_closed closes (notice ∷ before) ≡ false = rw (e, stays) refl in
            rw stays (ap (notice ∷◌) (notices-Agree notices later plain h (notice ∷ before) still))
      ]

  end-Agree : (ending : Ending) → Agree (end_notices closes ending) (open_end ending)
  end-Agree stream_done before e = disconnect-Agree before e
  end-Agree read_failed before e = fail-Agree before e
  end-Agree closed_by_owner before e = refl

  module _ (host : StreamHost J) (callbacks : TaskStreamCallbacks) (ending : Ending) where
    deliver-Agree :
        (blocks : List Text) (later : List (Notice J) → List (Notice J)) (plain : List (Notice J))
        → Agree later plain
        → Agree
            (deliver closes host callbacks blocks later)
            (deliver_open host callbacks ending blocks plain)
    unfolding deliver deliver_open
    deliver-Agree [] later plain h before e = h before e
    deliver-Agree (block ∷ blocks) later plain h before e =
        elim (Option-cases (parse_event_block host callbacks (host.trim block))) [
          | inl fails ↦ rw (fails, deliver, deliver_open) (fail-Agree before e)
          | inr (notices, parsed) ↦
              rw (parsed, deliver, deliver_open)
                (notices-Agree notices (deliver closes host callbacks blocks later)
                  (deliver_open host callbacks ending blocks plain)
                  (deliver-Agree blocks later plain h) before e)
        ]

    read_stream-Agree :
        (buffer : Text) (chunks : List Text)
        → Agree
            (read_stream closes host callbacks ending buffer chunks)
            (read_open host callbacks ending buffer chunks)
    unfolding read_stream read_open
    read_stream-Agree buffer [] before e = rw e (end-Agree ending before e)
    read_stream-Agree buffer (chunk ∷ chunks) before e =
        let (blocks, rest) = split_blocks (buffer ++ chunk) in
        rw e (
          deliver-Agree blocks (read_stream closes host callbacks ending rest chunks)
            (read_open host callbacks ending rest chunks) (read_stream-Agree rest chunks) before e)

    -- However the text of the stream is cut, the callbacks are called alike, in the same order and with
    -- the same end, as if the whole text were read at once, up to and with the call that closes the
    -- connection, where one does.
    pub subscribe-concat :
        (chunks : List Text)
        → until_closed closes [] (subscribe_task_stream closes host callbacks ending chunks)
          ≡ until_closed closes []
              (subscribe_task_stream closes host callbacks ending (concat chunks ∷ []))
    unfolding subscribe_task_stream split_blocks
    subscribe-concat chunks =
        read_stream-Agree [] chunks [] refl
        ∙ (ap (until_closed closes []) (read_open-concat host callbacks ending [] chunks refl)
            ∙ sym (read_stream-Agree [] (concat chunks ∷ []) [] refl))
