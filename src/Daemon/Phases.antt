-- ===== src/Daemon/Phases.antt =====
-- mds/MDS.cc: what starts with a state and what its end asks for.
use mds.Prelude.{
  ℕ, Bool, true, false, not, ◌&&◌, ◌||◌, Option, none, some, List, [], ◌∷◌, ◌==◌, if◌then◌else◌,
  ◌>>◌, assert, keep,
}
use mds.Prelude.Int.{ℤ, pos}
use mds.Dir.Freeze.{eq_ℤ}
use mds.Daemon.{
  State, null, stopped, creating, starting, standby_replay, oneshot_replay, replay, resolve,
  reconnect, rejoin, clientreplay, active, stopping, same, MdsMap, finish, respawn, create_journal,
  create_hierarchy, create_mydir, save_inotable, save_sessionmap, save_snaps, journal_subtree_map,
  load_inotable, load_sessionmap, open_journal, load_snaps, populate_mydir, wipe_sessions,
  wipe_prealloc, skip_inos, trim_tail, open_mydir, open_root, create_root_inode, journal_replay,
  journal_append, start_new_segment, probe_journal, standby_trim, restart_later, reopen_journal,
  set_writeable, rollback_uncommitted, resolve_start, reconnect_clients, set_recovery_set,
  queue_one_replay, clean_open_files, export_caps, recover_files, reissue_caps, shutdown_start,
  finish_recovery, Daemon, Answers, call, call_if, is_in, is_any_replay, request_state, suicide,
}

pub data BootStep : Type 0 where
  initial to_open_root prepare_log replay_is_done : BootStep

abbrev pub eq_rank : ℤ → ℕ → Bool
eq_rank r n = eq_ℤ r (pos n)

abbrev pub calc_recovery_set : Daemon → Daemon
calc_recovery_set d =
    call (set_recovery_set (keep (λ r. not (eq_rank d.whoami r)) d.mdsmap.recovery_ranks)) d

abbrev pub reopen_log : Daemon → Daemon
reopen_log d = call rollback_uncommitted d

abbrev pub boot_create : Answers → Daemon → Option Daemon
boot_create a d =
    let made = call_if (eq_ℤ d.mdsmap.tableserver d.whoami) save_snaps (
      call save_sessionmap (
        call save_inotable (
          call create_mydir
            (call_if (eq_ℤ d.whoami d.mdsmap.root) create_hierarchy (call create_journal d))))) in
    assert (not a.kills_create) >> some (call journal_subtree_map made)

abbrev pub load_files : Daemon → Daemon
load_files d =
    call_if (eq_ℤ d.mdsmap.tableserver d.whoami) load_snaps
      (call open_journal (call load_sessionmap (call load_inotable d)))

abbrev pub creating_done : Daemon → Daemon
creating_done d = request_state active d

-- A second pass of the replay: at once, or when the map of the object store is new enough.
abbrev pub standby_replay_restart : Answers → Daemon → Daemon
standby_replay_restart a d = call_if (d.standby_replaying || a.osd_map_is_ready) probe_journal d

abbrev pub replay_done : Answers → Daemon → Option Daemon
replay_done a d =
    if same d.state oneshot_replay
    then some (suicide d)
    else if same d.state standby_replay
    then (assert d.standby_replaying >> some (call restart_later d))
    else if d.standby_replaying
    then some (standby_replay_restart a (record d { standby_replaying = false }))
    else (assert a.is_journal_read
        >> some (
            if a.is_old_format
            then call reopen_journal d
            else request_state
                (if d.mdsmap.num_in == 1 && (elim d.mdsmap.failed [ [] ↦ true | _ ∷ _ ↦ false ])
                  then reconnect
                  else resolve)
                (call_if a.skips_inos skip_inos (
                  call_if a.wipes_prealloc wipe_prealloc (
                    call_if a.wipes_sessions wipe_sessions
                      (call trim_tail (call set_writeable d)))))))

abbrev pub starting_done : Daemon → Option Daemon
starting_done d =
    assert (same d.state starting)
    >> some (call start_new_segment (call open_root (request_state active d)))

-- `failed`: the step before failed, with the error EAGAIN or another one. A daemon that respawns is
-- no more.
abbrev pub boot_start : Answers → BootStep → (failed : Option Bool) → Daemon → Option Daemon
boot_start a step (some is_again) d =
    some (if same d.state standby_replay && is_again then call respawn d else suicide d)
boot_start a initial none d =
    assert (is_in d.state (starting ∷ []) || is_any_replay d) >> some (load_files d)
boot_start a to_open_root none d =
    assert (is_in d.state (starting ∷ []) || is_any_replay d)
    >> some (
        call
          (if same d.state starting || eq_ℤ d.whoami d.mdsmap.root
            then open_root
            else create_root_inode)
          (call open_mydir d))
boot_start a prepare_log none d =
    assert (is_in d.state (starting ∷ []) || is_any_replay d)
    >> (if is_any_replay d
        then some (call journal_replay d)
        else starting_done (call journal_append d))
boot_start a replay_is_done none d =
    assert (is_in d.state (starting ∷ []) || is_any_replay d)
    >> (assert (is_any_replay d) >> replay_done a d)

-- Too far behind, it is easier to respawn.
unfoldable pub standby_replay_restart_finish :
    Answers → (failed : Option Bool) → Daemon → Option Daemon
standby_replay_restart_finish a failed d =
    if a.is_journal_trimmed
    then some (call respawn d)
    else boot_start a prepare_log failed (call standby_trim d)

abbrev pub replay_start : Answers → Daemon → Option Daemon
replay_start a d =
    let d₁ = calc_recovery_set (record d {
      standby_replaying = if same d.state standby_replay then true else d.standby_replaying;
      standby_type = null;
    }) in
    if a.osd_map_is_ready then boot_start a initial none d₁ else some d₁

abbrev pub resolve_begin : Daemon → Daemon
resolve_begin d =
    let ws = d.waiters in
    call (finish ws.for_resolve)
      (call resolve_start (reopen_log (record d { waiters = record ws { for_resolve = [] } })))

abbrev pub resolve_done : Daemon → Daemon
resolve_done d = request_state reconnect d

abbrev pub reconnect_begin : Daemon → Daemon
reconnect_begin d =
    let ws = d.waiters in
    call (finish ws.for_reconnect) (
      call reconnect_clients (
        call_if (same d.last_state replay) rollback_uncommitted
          (record d { waiters = record ws { for_reconnect = [] } })))

abbrev pub reconnect_done : Daemon → Daemon
reconnect_done d = request_state rejoin d

abbrev pub rejoin_done : Answers → Daemon → Daemon
rejoin_done a d =
    request_state
      (if not a.has_subtrees then stopped else if a.has_replay_queue then clientreplay else active)
      d

abbrev pub clientreplay_begin : Daemon → Daemon
clientreplay_begin d =
    let ws = d.waiters in
    call queue_one_replay
      (call (finish ws.for_replay) (record d { waiters = record ws { for_replay = [] } }))

abbrev pub clientreplay_done : Daemon → Daemon
clientreplay_done d = request_state active d

abbrev pub active_begin : Daemon → Daemon
active_begin d =
    let ws = d.waiters in
    call (finish ws.for_active) (
      call (finish ws.for_replay) (
        call export_caps (
          call clean_open_files (
            call_if (same d.last_state creating) open_root
              (record d { waiters = record ws { for_replay = []; for_active = [] } })))))

abbrev pub members_in : List State → MdsMap → List (ℕ × State)
members_in ss m = keep (λ e. is_in e.1 ss) m.members

abbrev pub ranks : List (ℕ × State) → List ℕ
ranks [] = []
ranks (e ∷ es) = e.0 ∷ ranks es

abbrev pub recovery_done : (oldstate : State) → Daemon → Option Daemon
recovery_done oldstate d =
    let d₁ =
      call_if (eq_ℤ d.mdsmap.tableserver d.whoami)
        (finish_recovery (ranks (members_in (clientreplay ∷ active ∷ stopping ∷ []) d.mdsmap))) d in
    assert (is_in d.state (clientreplay ∷ active ∷ []))
    >> some (
        if same oldstate creating
        then d₁
        else call populate_mydir (call reissue_caps (call recover_files d₁)))

abbrev pub stopping_begin : Answers → Daemon → Daemon
stopping_begin a d =
    call shutdown_start (if d.mdsmap.num_in == 1 && a.has_sessions then suicide d else d)

abbrev pub stopping_done : Daemon → Daemon
stopping_done d = request_state stopped d
