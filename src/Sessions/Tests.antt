-- ===== src/Sessions/Tests.antt =====
-- Runs of a session.
use mds.Prelude.{ℕ, ◌+◌, ◌≡◌, refl, true, false, none, List, [], ◌∷◌, ◌==◌, if◌then◌else◌, ◌>>=◌}
use mds.Sessions.{State, state_closed, state_open, code, World, force_open, terminate, complete}
use mds.Sessions.Runs.{
  Event, open_requested, safe, pushed, close_requested, import_prepared, checked_stale,
  terminate-force_open,
}

abbrev next : State → ℕ → State → ℕ
next a n b = if code a == code b then n else n + 1

abbrev zeroed : ℕ → ℕ
zeroed n = 0

abbrev fresh : World
fresh = record {
  session = record {
    state = state_closed;
    state_seq = 0;
    push_seq = 0;
    importing = 0;
    in_map = false;
    has_connection = true;
    has_inos = false;
  };
  journal = [];
  version = 3;
  projected = 3;
  is_readonly = false;
  calls = [];
}

-- It opens, an import holds it, it goes stale, and its close is journaled.
abbrev events : List Event
events =
    open_requested
    ∷ import_prepared true
    ∷ safe true
    ∷ pushed
    ∷ close_requested 1
    ∷ safe true
    ∷ checked_stale true
    ∷ close_requested 1
    ∷ []

abbrev opened : World
opened = record fresh { session = record fresh.session { state = state_open; in_map = true } }

terminate-force_open_example :
    (force_open next zeroed true opened >>= λ w.
    complete next zeroed true (terminate next zeroed w))
    ≡ none
terminate-force_open_example = terminate-force_open next zeroed true true opened refl refl refl
