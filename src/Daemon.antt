-- ===== src/Daemon.antt =====
-- mds/MDS.cc and mds/MDS.h: the states of the daemon, what it reads of a map of the servers, and
-- the requests it makes of the monitors.
pub mod Phases
pub mod MapHandling
pub mod Changes
pub mod Starting
pub mod Granted
pub mod Recovery
pub mod Keeping
pub mod Waking
mod Tests
use mds.Prelude.{
  ℕ, Bool, true, false, not, ◌&&◌, ◌||◌, Option, none, some, List, [], ◌∷◌, ◌==◌, if◌then◌else◌,
  Map,
}
use mds.Prelude.Int.{ℤ, pos}

-- The constants MDSMap::STATE_*.
pub data State : Type 0 where
  null dne stopped booting standby creating starting standby_replay oneshot_replay replay : State
  resolve reconnect rejoin clientreplay active stopping : State

abbrev tag : State → ℕ
tag null = 0
tag dne = 1
tag stopped = 2
tag booting = 3
tag standby = 4
tag creating = 5
tag starting = 6
tag standby_replay = 7
tag oneshot_replay = 8
tag replay = 9
tag resolve = 10
tag reconnect = 11
tag rejoin = 12
tag clientreplay = 13
tag active = 14
tag stopping = 15

abbrev pub same : State → State → Bool
same s s' = tag s == tag s'

-- What the handler reads of a map. `rank`, `state`, `incarnation` and `standby_for_rank` are those
-- of the daemon's own global id; `larger_gid`: the daemon of its name in the map has a larger one.
pub record MdsMap : Type 0 where
  pub epoch : ℕ
  pub is_writeable : Bool  -- by the compatibility set
  pub rank : ℤ
  pub state : State
  pub incarnation : ℕ
  pub standby_for_rank : ℤ
  pub larger_gid : Bool
  pub infos : List (ℕ × ℕ)  -- global id and address
  pub members : List (ℕ × State)  -- by rank
  pub failed : List ℕ
  pub stopped_ranks : List ℕ
  pub recovery_ranks : List ℕ
  pub get_addr : ℕ → ℕ  -- of the instance that it has for a rank
  pub insts : Map (ℕ × ℕ)  -- address and incarnation of those that are up
  pub is_resolving : Bool
  pub is_rejoining : Bool
  pub num_in : ℕ
  pub root : ℤ
  pub tableserver : ℤ

pub data Call : Type 0 where
  notify_want_state : State → Call
  notify_mdsmap sub_got set_incarnation : ℕ → Call
  mark_down : (addr : ℕ) → Call
  set_myname : (by_rank : Bool) → Call
  finish : List ℕ → Call
  send_beacon shutdown respawn : Call
  create_journal create_hierarchy create_mydir save_inotable save_sessionmap save_snaps : Call
  journal_subtree_map load_inotable load_sessionmap open_journal load_snaps populate_mydir : Call
  wipe_sessions wipe_prealloc skip_inos trim_tail : Call
  open_mydir open_root create_root_inode journal_replay journal_append : Call
  start_new_segment probe_journal standby_trim restart_later reopen_journal set_writeable : Call
  rollback_uncommitted resolve_start reconnect_clients rejoin_start rejoin_send_rejoins : Call
  set_recovery_set : List ℕ → Call
  queue_one_replay clean_open_files export_caps recover_files reissue_caps shutdown_start : Call
  send_resolves try_rebalance osd_barrier : Call
  finish_recovery kick_discovers : List ℕ → Call
  peer_recovers snaps_recover peer_fails peer_stops : ℕ → Call

-- The waiters for the states, the peers and the maps, each known by a number.
pub record Waiters : Type 0 where
  pub for_replay : List ℕ
  pub for_active : List ℕ
  pub for_resolve : List ℕ
  pub for_reconnect : List ℕ
  pub for_active_peer : Map (List ℕ)
  pub for_mdsmap : List (ℕ × List ℕ)  -- by epoch
  pub finished_queue : List ℕ

pub record Daemon : Type 0 where
  pub state : State
  pub want_state : State
  pub last_state : State
  pub standby_type : State
  pub standby_replaying : Bool
  pub whoami : ℤ
  pub incarnation : ℕ
  pub mdsmap : MdsMap
  pub peer_mdsmap_epoch : Map ℕ
  pub waiters : Waiters
  pub calls : List Call  -- newest first

-- What the code asks elsewhere, when it asks. `number` is the value of a state's constant.
pub record Answers : Type 0 where
  pub number : State → ℕ
  pub enforce_unique_name : Bool
  pub osd_map_is_ready : Bool
  pub objecter_incarnation : ℕ
  pub kills_create : Bool  -- mds_kill_create_at is 1
  pub is_journal_read : Bool  -- up to where it is written
  pub is_old_format : Bool
  pub is_journal_trimmed : Bool  -- beyond the position read
  pub wipes_sessions : Bool
  pub wipes_prealloc : Bool
  pub skips_inos : Bool
  pub has_subtrees : Bool
  pub has_replay_queue : Bool
  pub has_sessions : Bool

abbrev pub call : Call → Daemon → Daemon
call k d = record d { calls = k ∷ d.calls }

abbrev pub call_if : Bool → Call → Daemon → Daemon
call_if b k d = record d { calls = if b then k ∷ d.calls else d.calls }

abbrev pub is_in : State → List State → Bool
is_in s [] = false
is_in s (x ∷ xs) = same s x || is_in s xs

abbrev pub is_any_replay : Daemon → Bool
is_any_replay d = is_in d.state (replay ∷ standby_replay ∷ oneshot_replay ∷ [])

abbrev pub is_late : Daemon → Bool
is_late d = is_in d.state (clientreplay ∷ active ∷ stopping ∷ [])

abbrev pub set_want_state : State → Daemon → Daemon
set_want_state s d = record d {
  want_state = s;
  calls = if same d.want_state s then d.calls else notify_want_state s ∷ d.calls;
}

abbrev pub request_state : State → Daemon → Daemon
request_state s d = call send_beacon (set_want_state s d)

abbrev pub suicide : Daemon → Daemon
suicide d = call shutdown (set_want_state dne d)
