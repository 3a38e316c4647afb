-- ===== src/Daemon/Tests.antt =====
-- mds/MDS.cc: runs of the daemon.
use mds.Prelude.{
  suc, ◌+◌, ◌<◌, ◌≡◌, ◌↔◌, refl, true, false, none, some, List, [], ◌∷◌, arith, ◌>>=◌,
}
use mds.Prelude.Int.{pos, negsuc}
use mds.Daemon.{
  State, null, booting, replay, resolve, reconnect, rejoin, clientreplay, active, stopping, MdsMap,
  Call, notify_want_state, notify_mdsmap, sub_got, set_myname, finish, rollback_uncommitted,
  resolve_start, try_rebalance, Waiters, Daemon, Answers,
}
use mds.Daemon.MapHandling.{identify, handle_mds_map}
use mds.Daemon.Starting.{rollbacks, IsAt}
use mds.Daemon.Granted.{Grants}
use mds.Daemon.Changes.{is_allowed, is_onward, handle_mds_map-fails}
use mds.Daemon.Recovery.{rounds, recovers_within}
use mds.Daemon.Waking.{handle_mds_map-wakes, IsWoken, handle_mds_map-wakes}

-- Two servers; this one has rank 0 and serves the tables.
abbrev first_map : MdsMap
first_map = record {
  epoch = 7;
  is_writeable = true;
  rank = pos 0;
  state = replay;
  incarnation = 3;
  standby_for_rank = negsuc 0;
  larger_gid = false;
  infos = (4100, 90) ∷ (4101, 91) ∷ [];
  members = (0, replay) ∷ (1, active) ∷ [];
  failed = [];
  stopped_ranks = [];
  recovery_ranks = 0 ∷ 1 ∷ [];
  get_addr = λ r. 90 + r;
  insts = (0, (90, 3)) ∷ (1, (91, 1)) ∷ [];
  is_resolving = false;
  is_rejoining = false;
  num_in = 2;
  root = pos 0;
  tableserver = pos 0;
}

abbrev nobody : Waiters
nobody = record {
  for_replay = [];
  for_active = [];
  for_resolve = [];
  for_reconnect = [];
  for_active_peer = [];
  for_mdsmap = [];
  finished_queue = [];
}

abbrev replaying : Daemon
replaying = record {
  state = replay;
  want_state = replay;
  last_state = booting;
  standby_type = null;
  standby_replaying = false;
  whoami = pos 0;
  incarnation = 3;
  mdsmap = first_map;
  peer_mdsmap_epoch = [];
  waiters = nobody;
  calls = [];
}

abbrev answers : Answers
answers = record {
  number = λ s. 0;
  enforce_unique_name = true;
  osd_map_is_ready = true;
  objecter_incarnation = 3;
  kills_create = false;
  is_journal_read = true;
  is_old_format = false;
  is_journal_trimmed = false;
  wipes_sessions = false;
  wipes_prealloc = false;
  skips_inos = false;
  has_subtrees = true;
  has_replay_queue = true;
  has_sessions = true;
}

abbrev monitor : Daemon → MdsMap
monitor d = record first_map { epoch = suc d.mdsmap.epoch; state = d.want_state }

monitor-Grants : (d : Daemon) → Grants (monitor d) d
monitor-Grants d = record { newer = omega arith; writeable = refl; granted = refl; ranked = refl }

recovers_within_example :
    (d' : Daemon) × (rounds answers monitor 5 replaying ≡ some d')
    × IsAt active d'
    × (rollbacks d' ≡ rollbacks replaying + 1)
recovers_within_example =
    recovers_within answers monitor monitor-Grants
      (record { is_read = refl; is_new_format = refl; has_tree = refl }) 5 replay replaying
      (record { at = refl; wants = refl; passes = refl }) refl (omega arith)

-- The states that the daemon asks for on its way.
asked : List Call → List State
asked [] = []
asked (notify_want_state s ∷ cs) = s ∷ asked cs
asked (_ ∷ cs) = asked cs

way :
    (rounds answers monitor 5 replaying >>= λ d. some (asked d.calls))
    ≡ some (active ∷ clientreplay ∷ rejoin ∷ reconnect ∷ resolve ∷ [])
unfolding rounds asked
way = refl

handle_mds_map-fails_example :
    (handle_mds_map answers none (record first_map { epoch = 8; state = stopping }) replaying
      ≡ none)
    ↔ ((7 < 8)
        × (is_onward (identify answers (record first_map { epoch = 8; state = stopping }) replaying)
            ≡ true)
        × (false ≡ false)
        × (is_allowed answers replay stopping ≡ false))
handle_mds_map-fails_example =
    handle_mds_map-fails answers none (record first_map { epoch = 8; state = stopping }) replaying

-- A replaying daemon cannot be made to stop.
stopping_fails :
    handle_mds_map answers none (record first_map { epoch = 8; state = stopping }) replaying ≡ none
unfolding handle_mds_map
stopping_fails = refl

-- An old map changes nothing.
old_map : handle_mds_map answers none first_map replaying ≡ some replaying
unfolding handle_mds_map
old_map = refl

abbrev waiting : Daemon
waiting = record replaying {
  waiters = record nobody { for_mdsmap = (7, 5 ∷ []) ∷ (8, 6 ∷ []) ∷ (9, 4 ∷ []) ∷ [] };
}

abbrev resolving : Daemon
resolving = record waiting {
  state = resolve;
  want_state = resolve;
  last_state = replay;
  mdsmap = record first_map { epoch = 8; state = resolve };
  waiters = record nobody { for_mdsmap = (9, 4 ∷ []) ∷ [] };
  calls =
      notify_mdsmap 8
      ∷ finish (6 ∷ [])
      ∷ finish (5 ∷ [])
      ∷ try_rebalance
      ∷ finish []
      ∷ resolve_start
      ∷ rollback_uncommitted
      ∷ notify_want_state resolve
      ∷ set_myname true
      ∷ sub_got 8
      ∷ [];
}

handle_mds_map-wakes_example :
    IsWoken (record first_map { epoch = 8; state = resolve }) waiting.waiters.for_mdsmap resolving
handle_mds_map-wakes_example =
    handle_mds_map-wakes answers none (record first_map { epoch = 8; state = resolve }) waiting
      resolving (omega arith) ((omega arith, (omega arith, tt)), ((omega arith, tt), (tt, tt)))
      (unfold identify in refl) (unfold handle_mds_map in refl)
