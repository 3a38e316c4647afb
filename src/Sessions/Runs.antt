-- ===== src/Sessions/Runs.antt =====
-- mds/Server.cc, sessions: runs of a session and of the log.
use mds.Prelude.{
  ℕ, zero, suc, ◌+◌, ◌≤◌, ◌≡◌, refl, Bool, true, Option, none, some, List, [], ◌∷◌, ◌>>=◌,
}
use mds.Sessions.{
  State, state_closed, state_open, World, request_open, request_renewcaps, journal_close_session,
  request_close, kill_session, terminate, find_stale, autoclose, force_open, finish_force_open,
  complete, call, finish_flush,
}
use mds.Sessions.Running.{Renumbers}

-- A client's close carries a number, which should be one that it was sent. `pushed` is a message
-- that raises the last number sent. `matches` is for _session_logged.
pub data Event : Type 0 where
  open_requested killed pushed : Event
  safe : (matches : Bool) → Event
  renewed flush_acked : (seq : ℕ) → Event
  close_requested : (seq : ℕ) → Event
  import_prepared : (dec_import : Bool) → Event
  checked_stale checked_close : (is_old : Bool) → Event

module _ (next_seq : State → ℕ → State → ℕ) (cleared_seq : ℕ → ℕ) where
  -- handle_client_session, by the operation of the message, and what else happens to the session.
  unfoldable pub step : Event → World → Option World
  step open_requested w = request_open next_seq cleared_seq w
  step (safe matches) w = complete next_seq cleared_seq matches w
  step killed w = kill_session next_seq cleared_seq w
  step pushed w =
      some (record w { session = record w.session { push_seq = w.session.push_seq + 1 } })
  step (renewed seq) w = some (request_renewcaps next_seq cleared_seq seq w)
  step (flush_acked seq) w = some (call (finish_flush seq) w)
  step (close_requested seq) w = request_close next_seq cleared_seq seq w
  step (import_prepared d) w = force_open next_seq cleared_seq d w
  step (checked_stale b) w = some (find_stale next_seq cleared_seq b w)
  step (checked_close b) w = autoclose next_seq cleared_seq b w

  unfoldable pub run : List Event → World → Option World
  unfolding step
  run [] w = some w
  run (e ∷ es) w = step e w >>= run es

  -- The log makes so many entries safe.
  abbrev pub all_safe : ℕ → List Event
  all_safe zero = []
  all_safe (suc n) = safe true ∷ all_safe n

  -- A close carries no number that the client was not sent yet, and the table of inode numbers has
  -- the version that an entry expects.
  abbrev pub IsSent : Event → World → Type 0
  IsSent (close_requested seq) w = seq ≤ w.session.push_seq
  IsSent (safe matches) w = matches ≡ true
  IsSent _ w = Unit

  abbrev After : (World → Type 0) → Option World → Type 0
  After P none = Unit
  After P (some w) = P w

  -- So at every step of the run.
  unfoldable pub AreSent : List Event → World → Type 0
  unfolding step
  AreSent [] w = Unit
  AreSent (e ∷ es) w = IsSent e w × After (AreSent es) (step e w)

  module _ (renumbers : Renumbers next_seq) where
    -- A closed session that the log knows nothing of.
    abbrev pub IsNew : World → Type 0
    IsNew w =
        (w.session.state ≡ state_closed)
        × (w.journal ≡ [])
        × (w.projected ≡ w.version)
        × (w.session.has_connection ≡ true)

  -- A session that is open when an import is prepared, and that is then terminated with the others:
  -- when the log is safe, the end of the forced opening fails an assertion.
  pub terminate-force_open :
      (d matches : Bool) (w : World)
      → w.journal ≡ []
      → w.session.state ≡ state_open
      → w.session.in_map ≡ true
      → (force_open next_seq cleared_seq d w >>= λ w'.
          complete next_seq cleared_seq matches (terminate next_seq cleared_seq w'))
        ≡ none
  unfolding force_open terminate journal_close_session complete finish_force_open
  terminate-force_open d matches w e st known = rw (e, st, known) refl
