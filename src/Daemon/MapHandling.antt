-- ===== src/Daemon/MapHandling.antt =====
-- mds/MDS.cc: handle_mds_map, the answer of the daemon to a map of the servers.
use mds.Prelude.{
  ℕ, Bool, true, false, not, ◌&&◌, ◌||◌, Option, none, some, List, [], ◌∷◌, ◌==◌, if◌then◌else◌,
  ◌>>=◌, ◌>>◌, assert, keep, Map, find, put, erase, leb, ltb, ◌++◌,
}
use mds.Prelude.Int.{ℤ, pos, negsuc}
use mds.Dir.Freeze.{eq_ℤ}
use mds.Daemon.{
  State, null, dne, booting, standby, creating, starting, standby_replay, oneshot_replay, replay,
  resolve, reconnect, rejoin, clientreplay, active, stopping, same, MdsMap, Call, notify_mdsmap,
  sub_got, set_incarnation, mark_down, set_myname, finish, send_beacon, shutdown, respawn,
  rejoin_start, rejoin_send_rejoins, set_recovery_set, send_resolves, try_rebalance, osd_barrier,
  kick_discovers, peer_recovers, snaps_recover, peer_fails, peer_stops, Waiters, Daemon, Answers,
  call, call_if, is_in, is_any_replay, is_late, set_want_state, request_state, suicide,
}
use mds.Daemon.Phases.{
  initial, eq_rank, boot_create, boot_start, replay_start, resolve_begin, reconnect_begin,
  clientreplay_begin, active_begin, members_in, ranks, recovery_done, stopping_begin,
}

abbrev epoch_or_zero : Option ℕ → ℕ
epoch_or_zero none = 0
epoch_or_zero (some e) = e

-- `source`: the rank of the server that sent the map, if one did.
abbrev pub note_peer : (source : Option ℕ) → (epoch : ℕ) → Daemon → Daemon
note_peer none epoch d = d
note_peer (some r) epoch d =
    let old = epoch_or_zero (find r d.peer_mdsmap_epoch) in
    record d {
      peer_mdsmap_epoch = put r (if ltb old epoch then epoch else old) d.peer_mdsmap_epoch;
    }

abbrev has_info : ℕ → List (ℕ × ℕ) → Bool
has_info gid [] = false
has_info gid (i ∷ is) = i.0 == gid || has_info gid is

abbrev pub mark_removed : MdsMap → List (ℕ × ℕ) → List Call → List Call
mark_removed m [] cs = cs
mark_removed m (i ∷ is) cs =
    mark_removed m is (if has_info i.0 m.infos then cs else mark_down i.1 ∷ cs)

-- The handler goes on, or jumps to its end.
pub data Course : Type 0 where
  onward leaves : Daemon → Course

-- The daemon takes its rank and state from the map.
abbrev pub adopt : MdsMap → Daemon → Daemon
adopt m d = record d {
  state = m.state;
  whoami = m.rank;
  incarnation = m.incarnation;
  last_state = if same m.state d.state then d.last_state else d.state;
  mdsmap = m;
  calls = mark_removed m d.mdsmap.infos (sub_got m.epoch ∷ d.calls);
}

abbrev pub is_negative : ℤ → Bool
is_negative (pos n) = false
is_negative (negsuc n) = true

-- It has no rank.
abbrev pub unranked : Answers → MdsMap → Daemon → Course
unranked a m d =
    if is_in d.state (standby_replay ∷ oneshot_replay ∷ [])
    then onward (record d { whoami = m.standby_for_rank })
    else leaves (
        if same d.want_state standby
        then set_want_state booting (record d { state = booting })
        else if same d.want_state booting
        then d
        else call (if a.enforce_unique_name && m.larger_gid then shutdown else respawn)
            (if a.enforce_unique_name && m.larger_gid then set_want_state dne d else d))

unfoldable pub identify : Answers → MdsMap → Daemon → Course
identify a m d =
    let d₁ = adopt m d in
    if not m.is_writeable
    then leaves (suicide (record d { mdsmap = m; calls = sub_got m.epoch ∷ d.calls }))
    else if same m.state standby
    then leaves (
        if a.number d.standby_type == 0
        then set_want_state standby d₁
        else request_state d.standby_type (set_want_state standby d₁))
    else if same m.state standby_replay
        && not (same d.standby_type null)
        && not (same d.standby_type standby_replay)
    then leaves (record (call send_beacon (set_want_state d.standby_type d₁)) { state = d.state })
    else if is_negative m.rank
    then unranked a m d₁
    else onward d₁

-- What starts with the new state.
abbrev pub start_state : Answers → (oldstate : State) → State → Daemon → Option Daemon
start_state a oldstate active d = some (active_begin d)
start_state a oldstate replay d = replay_start a d
start_state a oldstate standby_replay d = replay_start a d
start_state a oldstate oneshot_replay d = replay_start a d
start_state a oldstate resolve d = some (resolve_begin d)
start_state a oldstate reconnect d = some (reconnect_begin d)
start_state a oldstate rejoin d = some (call rejoin_start d)
start_state a oldstate clientreplay d = some (clientreplay_begin d)
start_state a oldstate creating d = boot_create a d
start_state a oldstate starting d = boot_start a initial none d
start_state a oldstate stopping d = assert (same oldstate active) >> some (stopping_begin a d)
start_state a oldstate _ d = some d

unfoldable pub change_state : Answers → (oldstate : State) → Daemon → Option Daemon
change_state a oldstate d =
    let d₁ = set_want_state d.state d in
    if same oldstate standby_replay
    then (assert (same d.state replay) >> some d₁)
    else ((if is_in d.state (active ∷ clientreplay ∷ [])
            && is_in oldstate (creating ∷ rejoin ∷ reconnect ∷ [])
          then recovery_done oldstate d₁
          else some d₁)
        >>= start_state a oldstate d.state)

-- The messenger and the objecter learn who the daemon is.
abbrev pub introduce : Answers → (oldwhoami : ℤ) → (oldstate : State) → Daemon → Daemon
introduce a oldwhoami oldstate d =
    call_if (not (a.objecter_incarnation == d.incarnation)) (set_incarnation d.incarnation) (
      call_if (not (eq_ℤ oldwhoami d.whoami) || not (same oldstate d.state))
        (set_myname (not (is_in d.state (standby_replay ∷ oneshot_replay ∷ [])))) d)

-- ## The other servers

abbrev has_rank : ℕ → List ℕ → Bool
has_rank r [] = false
has_rank r (x ∷ xs) = r == x || has_rank r xs

abbrev pub is_new : List ℕ → ℕ → Bool
is_new old r = not (has_rank r old)

-- The ranks in these states that were in none of them, but for the daemon's own.
abbrev pub newly : List State → (old : MdsMap) → Daemon → List ℕ
newly ss old d =
    keep (λ r. not (eq_rank d.whoami r) && is_new (ranks (members_in ss old)) r)
      (ranks (members_in ss d.mdsmap))

abbrev waiting_for : Option (List ℕ) → List ℕ
waiting_for none = []
waiting_for (some ws) = ws

-- handle_mds_recovery for each of the ranks: the waiters, and the calls.
abbrev pub recover_waiters : List ℕ → Waiters → Waiters
recover_waiters [] ws = ws
recover_waiters (r ∷ rs) ws = recover_waiters rs (record ws {
  finished_queue = ws.finished_queue ++ waiting_for (find r ws.for_active_peer);
  for_active_peer = erase r ws.for_active_peer;
})

abbrev pub recover_calls : (serves_tables : Bool) → List ℕ → List Call → List Call
recover_calls b [] cs = cs
recover_calls b (r ∷ rs) cs =
    recover_calls b rs (if b then snaps_recover r ∷ peer_recovers r ∷ cs else peer_recovers r ∷ cs)

-- handle_mds_failure for each of the ranks, after its old address is marked down.
abbrev pub fail_calls : (old : MdsMap) → (whoami : ℤ) → List ℕ → List Call → List Call
fail_calls old w [] cs = cs
fail_calls old w (r ∷ rs) cs =
    let down = mark_down (old.get_addr r) ∷ cs in
    fail_calls old w rs (if eq_rank w r then down else peer_fails r ∷ down)

abbrev has_changed : Option (ℕ × ℕ) → (ℕ × ℕ) → Bool
has_changed none i = false
has_changed (some j) i = not (j.0 == i.0 && j.1 == i.1)

-- Those that are up with another address or incarnation.
abbrev pub restarted : (old : MdsMap) → Map (ℕ × ℕ) → List ℕ
restarted old [] = []
restarted old (e ∷ es) =
    if has_changed (find e.0 old.insts) e.1 then e.0 ∷ restarted old es else restarted old es

abbrev pub stop_calls : List ℕ → List Call → List Call
stop_calls [] cs = cs
stop_calls (r ∷ rs) cs = stop_calls rs (peer_stops r ∷ cs)

-- The waiters for maps up to this epoch, which come first.
abbrev pub wake : (epoch : ℕ) → List (ℕ × List ℕ) → List (ℕ × List ℕ)
wake epoch [] = []
wake epoch (e ∷ es) = if leb e.0 epoch then wake epoch es else e ∷ es

abbrev pub woken : (epoch : ℕ) → List (ℕ × List ℕ) → List Call → List Call
woken epoch [] cs = cs
woken epoch (e ∷ es) cs = if leb e.0 epoch then woken epoch es (finish e.1 ∷ cs) else cs

-- The loops over the failed, the restarted and the stopped.
abbrev pub failures : (old : MdsMap) → Daemon → Daemon
failures old d = record d {
  calls =
      (let m = d.mdsmap in
        let failed = fail_calls old d.whoami (keep (is_new old.failed) m.failed) d.calls in
        let gone = fail_calls old d.whoami (restarted old m.insts) failed in
        if is_late d
        then stop_calls (keep (is_new old.stopped_ranks) m.stopped_ranks) gone
        else gone);
}

abbrev pub recoveries : Answers → (oldstate : State) → (old : MdsMap) → Daemon → Daemon
recoveries a oldstate old d =
    let rs =
      if leb (a.number clientreplay) (a.number oldstate) && is_late d
      then newly (active ∷ clientreplay ∷ []) old d
      else [] in
    record d {
      waiters = recover_waiters rs d.waiters;
      calls = recover_calls (eq_ℤ d.mdsmap.tableserver d.whoami) rs d.calls;
    }

-- Resolving, rejoining and discovering with the others.
abbrev pub join : Answers → (oldstate : State) → (old : MdsMap) → Daemon → Daemon
join a oldstate old d =
    let m = d.mdsmap in
    let resolves =
      is_in d.state (resolve ∷ reconnect ∷ rejoin ∷ clientreplay ∷ active ∷ stopping ∷ [])
      && not old.is_resolving
      && m.is_resolving in
    let joins = is_in d.state (rejoin ∷ clientreplay ∷ active ∷ stopping ∷ []) in
    call_if (joins && leb (a.number rejoin) (a.number oldstate))
      (kick_discovers (newly (active ∷ clientreplay ∷ rejoin ∷ []) old d))
      (call_if (joins && not old.is_rejoining && m.is_rejoining) rejoin_send_rejoins (
        call_if resolves send_resolves (
          call_if resolves
            (set_recovery_set (keep (λ r. not (eq_rank d.whoami r)) m.recovery_ranks)) d)))

abbrev pub settle : Daemon → Daemon
settle d = call_if (same d.state active) osd_barrier (record d {
  waiters = record d.waiters { for_mdsmap = wake d.mdsmap.epoch d.waiters.for_mdsmap };
  calls =
      woken d.mdsmap.epoch d.waiters.for_mdsmap
        (if is_any_replay d then d.calls else try_rebalance ∷ d.calls);
})

-- All that follows the change of the state.
abbrev pub watch : Answers → (oldstate : State) → (old : MdsMap) → Daemon → Daemon
watch a oldstate old d = settle (failures old (recoveries a oldstate old (join a oldstate old d)))

abbrev pub follow : Answers → (before now : Daemon) → Option Daemon
follow a before now =
    let d = introduce a before.whoami before.state now in
    (if same before.state now.state then some d else change_state a before.state d) >>= λ d₁.
    some (watch a before.state before.mdsmap d₁)

abbrev pub take_course : Answers → (before : Daemon) → Course → Option Daemon
take_course a before (leaves now) = some now
take_course a before (onward now) = follow a before now

unfoldable pub handle_mds_map : Answers → (source : Option ℕ) → MdsMap → Daemon → Option Daemon
unfolding identify change_state
handle_mds_map a source m d =
    let d₁ = note_peer source m.epoch d in
    if leb m.epoch d₁.mdsmap.epoch
    then some d₁
    else (take_course a d₁ (identify a m d₁) >>= λ d₂. some (call (notify_mdsmap m.epoch) d₂))
