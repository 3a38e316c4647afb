-- ===== src/Balancer/Heartbeats.antt =====
-- mds/MDBalancer.cc: the heartbeats by which the ranks tell each other their loads, and when they
-- make a server rebalance. What get_load measures, and what the code reads of the maps and of the
-- cache, are arguments; the sums of the loads that were imported are those of mds_import_map.
pub mod Rounds
mod Tests
use mds.Prelude.{
  ℕ, suc, ◌+◌, Bool, true, false, not, ◌&&◌, ◌||◌, List, [], ◌∷◌, ◌++◌, map, keep, ◌==◌,
  if◌then◌else◌, Map, put, length,
}
use mds.Balancer.Load.{Load}
use mds.Balancer.Matching.{MdsLoad, add_at}

-- A subtree of which this server has the authority; `from` is the authority of its inode.
pub record AuthSubtree (T : Type 0) : Type 0 where
  pub from : ℕ
  pub is_stray : Bool
  pub pop : T

pub record Surroundings (T : Type 0) : Type 0 where
  pub whoami : ℕ
  pub is_active : Bool
  pub is_open : Bool
  pub is_degraded : Bool
  pub cluster_size : ℕ
  pub up : List ℕ
  pub bal_lua : ℕ
  pub load : MdsLoad T
  pub subtrees : List (AuthSubtree T)

pub record Beat (T : Type 0) : Type 0 where
  pub beat_epoch : ℕ
  pub mds_load : Map (MdsLoad T)
  pub mds_import_map : Map (Map T)
  pub sent : List (ℕ × ℕ)  -- to whom, with which beat; newest first

-- What a heartbeat leads to.
pub data Decision : Type 0 where
  ignored waits noted rebalances runs_script pauses unset : Decision

module _ {T : Type 0} (l : Load T) where
  -- How much was imported from whom.
  unfoldable pub import_sums : (whoami : ℕ) → List (AuthSubtree T) → Map T → Map T
  import_sums whoami [] m = m
  import_sums whoami (s ∷ ss) m =
      import_sums whoami ss (if s.from == whoami || s.is_stray then m else add_at l s.from s.pop m)

  unfoldable pub send_heartbeat : Surroundings T → Beat T → Beat T
  unfolding import_sums
  send_heartbeat e b =
      let epoch = if e.whoami == 0 then b.beat_epoch + 1 else b.beat_epoch in
      let sent = map (λ r. (r, epoch)) (keep (λ r. not (r == e.whoami)) e.up) in
      if e.is_degraded || not e.is_open then b else record {
        beat_epoch = epoch;
        mds_load = put e.whoami e.load [];
        mds_import_map = put e.whoami (import_sums e.whoami e.subtrees []) b.mds_import_map;
        sent = sent ++ b.sent;
      }

  abbrev pub decide : (bal_lua : ℕ) → Decision
  decide bal_lua =
      if bal_lua == 0
      then rebalances
      else if bal_lua == 1
      then runs_script
      else if bal_lua == 2
      then pauses
      else unset

  unfoldable pub handle_heartbeat :
      Surroundings T
      → (who beat : ℕ) (load : MdsLoad T) (imports : Map T) → Beat T
      → Beat T × Decision
  unfolding send_heartbeat
  handle_heartbeat e who beat load imports b =
      let answered = if who == 0 then send_heartbeat e (record b { beat_epoch = beat }) else b in
      let heard = record answered {
        mds_load = put who load answered.mds_load;
        mds_import_map = put who imports answered.mds_import_map;
      } in
      if not e.is_active
      then (b, ignored)
      else if not e.is_open
      then (b, waits)
      else if e.is_degraded
      then (b, ignored)
      else (heard, if length heard.mds_load == e.cluster_size then decide e.bal_lua else noted)
