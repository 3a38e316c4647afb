-- ===== src/Sessions.antt =====
-- mds/Server.cc: the states of a client's session, and the log entries that change them once they
-- are safe. The model follows one session. SessionMap, Session and the log are not part of the
-- repository: what the code asks of them is a list of calls, and the entries that the log has not
-- finished are a list, the oldest first.
pub mod Queue
pub mod Running
pub mod Logged
pub mod Forced
pub mod Runs
mod Tests
use mds.Prelude.{
  ℕ, suc, ◌+◌, ◌-◌, Bool, true, false, not, ◌&&◌, ◌||◌, Option, none, some, List, [], ◌∷◌, ◌++◌,
  ◌==◌, ltb, if◌then◌else◌, ◌>>=◌, ◌>>◌, assert,
}

pub data State : Type 0 where
  state_closed state_opening state_open state_closing state_stale state_killing : State

abbrev pub code : State → ℕ
code state_closed = 0
code state_opening = 1
code state_open = 2
code state_closing = 3
code state_stale = 4
code state_killing = 5

-- `in_map`: the session is in the session map. `has_inos`: inode numbers are allocated to it.
pub record Session : Type 0 where
  pub state : State
  pub state_seq : ℕ
  pub push_seq : ℕ
  pub importing : ℕ
  pub in_map : Bool
  pub has_connection : Bool
  pub has_inos : Bool

-- An entry of the log: a session that opens or closes, with the sequence number that its state had;
-- and a forced opening, with that number if the state was changed.
pub data Entry : Type 0 where
  logged : (state_seq : ℕ) (opens releases : Bool) → Entry
  forced : (state_seq : Option ℕ) (dec_import : Bool) → Entry

pub data Call : Type 0 where
  add_session touch_session remove_session mark_disposable mark_down clear_session : Call
  send_open send_close send_force_ro : Call
  send_renewcaps send_stale finish_flush : (seq : ℕ) → Call
  resume_stale_caps revoke_stale_caps remove_stale_leases kill_caps kill_requests : Call
  project_release_ids apply_release_ids leave_reconnect : Call

-- `version` and `projected` are those of the session map.
pub record World : Type 0 where
  pub session : Session
  pub journal : List Entry
  pub version : ℕ
  pub projected : ℕ
  pub is_readonly : Bool
  pub calls : List Call  -- newest first

abbrev pub in_state : State → World → Bool
in_state st w = code w.session.state == code st

abbrev pub is_importing : World → Bool
is_importing w = not (w.session.importing == 0)

abbrev pub call : Call → World → World
call c w = record w { calls = c ∷ w.calls }

abbrev pub call_if : Bool → Call → World → World
call_if b c w = record w { calls = if b then c ∷ w.calls else w.calls }

-- `++projected`, and the entry is submitted.
abbrev pub submit : Entry → World → World
submit e w = record w { projected = w.projected + 1; journal = w.journal ++ e ∷ [] }

abbrev pub set_in_map : Bool → World → World
set_in_map b w = record w { session = record w.session { in_map = b } }

-- `next_seq` is how the session numbers its states: from the state, its number and the new state.
-- `cleared_seq` is `push_seq` after `clear`.
module _ (next_seq : State → ℕ → State → ℕ) (cleared_seq : ℕ → ℕ) where
  abbrev pub set_state : State → World → World
  set_state st w = record w {
    session = record w.session {
      state = st;
      state_seq = next_seq w.session.state w.session.state_seq st;
    };
  }

  unfoldable pub request_open : World → Option World
  request_open w =
      let fresh = in_state state_closed w in
      let added = call_if fresh add_session (set_in_map (fresh || w.session.in_map) w) in
      let opened = call touch_session (set_state state_opening added) in
      if in_state state_opening w
        || in_state state_open w
        || in_state state_stale w
        || in_state state_killing w
      then some w
      else assert (in_state state_closed w || in_state state_closing w)
        >> some (submit (logged opened.session.state_seq true false) opened)

  unfoldable pub request_renewcaps : (seq : ℕ) → World → World
  request_renewcaps seq w =
      let touched = call touch_session w in
      let resumed =
        if in_state state_stale w
        then call touch_session (call resume_stale_caps (set_state state_open touched))
        else touched in
      if in_state state_open w || in_state state_stale w
      then call (send_renewcaps seq) resumed
      else w

  unfoldable pub journal_close_session : State → World → World
  journal_close_session st w =
      let set = set_state st w in
      let releases = w.session.has_inos in
      let freed = call_if releases project_release_ids set in
      call (finish_flush w.session.push_seq) (
        call kill_requests (
          submit (logged set.session.state_seq false releases)
            (record freed { session = record freed.session { has_inos = false } })))

  unfoldable pub request_close : (seq : ℕ) → World → Option World
  unfolding journal_close_session
  request_close seq w =
      if in_state state_closed w || in_state state_closing w || in_state state_killing w
      then some w
      else if is_importing w
      then some w
      else assert (in_state state_open w || in_state state_stale w || in_state state_opening w)
        >> (if ltb seq w.session.push_seq
            then some w
            else assert (seq == w.session.push_seq) >> some (journal_close_session state_closing w))

  unfoldable pub kill_session : World → Option World
  unfolding journal_close_session
  kill_session w =
      if (in_state state_opening w || in_state state_open w || in_state state_stale w)
        && not (is_importing w)
      then some (journal_close_session state_killing w)
      else assert (
          in_state state_closing w
          || in_state state_closed w
          || in_state state_killing w
          || is_importing w)
        >> some w

  -- The loop bodies of terminate_sessions and find_idle_sessions, for this session. `is_old`: the
  -- last renewal is before the cutoff.
  unfoldable pub terminate : World → World
  unfolding journal_close_session
  terminate w =
      if not w.session.in_map
        || in_state state_closing w
        || in_state state_killing w
        || in_state state_closed w
      then w
      else journal_close_session state_closing w

  unfoldable pub find_stale : (is_old : Bool) → World → World
  find_stale is_old w =
      if w.session.in_map && in_state state_open w && is_old
      then call (finish_flush w.session.push_seq) (
          call (send_stale w.session.push_seq)
            (call remove_stale_leases (call revoke_stale_caps (set_state state_stale w))))
      else w

  unfoldable pub autoclose : (is_old : Bool) → World → Option World
  unfolding kill_session
  autoclose is_old w =
      if w.session.in_map && in_state state_stale w && not (is_importing w) && is_old
      then kill_session w
      else some w

  -- `_session_logged`. `matches`: the table of inode numbers, once the numbers are released, has
  -- the version that it was projected to when the entry was made.
  unfoldable pub session_logged :
      (matches : Bool) (state_seq : ℕ) (opens releases : Bool) → World → Option World
  session_logged matches state_seq opens releases w =
      let applied = call_if releases apply_release_ids w in
      let greeted = call send_open (call touch_session (set_state state_open applied)) in
      let opened = call_if w.is_readonly send_force_ro greeted in
      let left = call leave_reconnect (call kill_caps applied) in
      let disposed = call_if w.session.has_connection mark_disposable left in
      let shut = set_state state_closed (call send_close disposed) in
      let cleared = call clear_session (record shut {
        session = record shut.session { push_seq = cleared_seq shut.session.push_seq };
      }) in
      let downed = call_if w.session.has_connection mark_down left in
      let gone =
        call remove_session
          (set_in_map false (if in_state state_closing w then cleared else downed)) in
      assert (matches || not releases)
      >> (if not (w.session.state_seq == state_seq)
          then some applied
          else if opens
          then assert (in_state state_opening w) >> (assert w.session.has_connection >> some opened)
          else assert (in_state state_closing w || in_state state_killing w) >> some gone)
      >>= λ w'. some (record w' { version = w'.version + 1 })

  -- prepare_force_open_sessions; a session that is not in the map is another one to it.
  unfoldable pub force_open : (dec_import : Bool) → World → Option World
  force_open dec_import w =
      let gone = in_state state_closed w || in_state state_closing w || in_state state_killing w in
      let set = if gone then set_state state_opening w else w in
      let seq = if gone then some set.session.state_seq else none in
      if not w.session.in_map
      then some w
      else assert
          (gone || in_state state_open w || in_state state_opening w || in_state state_stale w)
        >> some (
            submit (forced seq dec_import) (record set {
              session = record set.session { importing = set.session.importing + 1 };
            }))

  -- finish_force_open_sessions.
  unfoldable pub finish_force_open :
      (state_seq : Option ℕ) (dec_import : Bool) → World → Option World
  finish_force_open state_seq dec_import w =
      let greeted = call send_open (call touch_session (set_state state_open w)) in
      let opened = call_if w.is_readonly send_force_ro greeted in
      let checked : Option World = elim state_seq [
        | none ↦ assert (in_state state_open w || in_state state_stale w) >> some w
        | some seq ↦ some (if w.session.state_seq == seq then opened else w)
      ] in
      assert w.session.in_map
      >> (checked >>= λ w'. some (record w' {
        session = record w'.session {
          importing = if dec_import then w'.session.importing - 1 else w'.session.importing;
        };
        version = w'.version + 1;
      }))

  -- The oldest entry of the log is safe.
  unfoldable pub complete : (matches : Bool) → World → Option World
  unfolding session_logged finish_force_open
  complete matches w = elim w.journal [
    | [] ↦ some w
    | (logged seq opens releases ∷ es) ↦
        session_logged matches seq opens releases (record w { journal = es })
    | (forced seq dec_import ∷ es) ↦ finish_force_open seq dec_import (record w { journal = es })
  ]
