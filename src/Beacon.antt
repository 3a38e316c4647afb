-- ===== src/Beacon.antt =====
-- mds/Beacon.cc: the beacons that a metadata server sends to the monitors, and its view of whether
-- it is laggy. The lock is not modelled: each method runs whole. The clock, the timer, the monitor
-- client and the compat sets are outside: a reading of the clock is an argument, what a method asks
-- of the timer and of the monitors is a list of effects, and a compat set is a value of any type.
mod Stamps
pub mod Acks
pub mod Laggy
pub mod Health
mod Tests
use mds.Prelude.{
  ℕ, ◌+◌, ◌%◌, ◌^◌, ◌≡◌, Bool, true, false, ◌&&◌, Option, none, some, List, [], ◌∷◌, ◌++◌, leb,
  if◌then◌else◌, ◌>>=◌, ◌>>◌, assert, Map, find, put,
}
use mds.Prelude.Int.{ℤ}
use mds.Time.{UTime}
use Prim.Native.String.{String}

-- `version_t` is 64 bits wide.
abbrev pub v64 : ℕ → ℕ
v64 n = n % 2 ^ 64

-- One condition of `MDSHealth::metrics`: its kind with the numbers that it reports.
pub data Metric : Type 0 where
  trim : (num_segments : ℕ) (max_segments : ℤ) → Metric
  late_release : (client : ℕ) → Metric
  late_release_many : (count : ℕ) → Metric
  client_recall : (client : ℕ) → Metric
  client_recall_many : (count : ℕ) → Metric

pub record Config (T : Type 0) : Type 0 where
  pub beacon_interval : T
  pub beacon_grace : T

pub record Beacon (T C : Type 0) : Type 0 where
  pub want_state : ℕ
  pub last_seq : ℕ
  pub sender : Bool  -- a timer event is pending
  pub seq_stamp : Map T
  pub last_acked_stamp : T
  pub was_laggy : Bool
  pub laggy_until : T
  pub last_mon_reconnect : T
  pub standby_for_rank : ℤ
  pub standby_for_name : String
  pub epoch : ℕ
  pub compat : C
  pub health : List Metric

pub record MonBeacon (C : Type 0) : Type 0 where
  pub state : ℕ
  pub seq : ℕ
  pub epoch : ℕ
  pub for_rank : ℤ
  pub for_name : String
  pub health : List Metric
  pub compat : C

pub data Effect (T C : Type 0) : Type 0 where
  cancel_event : Effect T C
  add_event_after : T → Effect T C
  send_mon_message : MonBeacon C → Effect T C
  reopen_session : Effect T C

-- `while (!seq_stamp.empty() && seq_stamp.begin()->first <= seq) erase(begin)`.
pub drop_through {ℓ} : {V : Type ℓ} → ℕ → Map V → Map V
drop_through seq [] = []
drop_through seq ((k, t) ∷ m) =
    let rest = drop_through seq m in if leb k seq then rest else (k, t) ∷ m

module _ {T C : Type 0} (u : UTime T) where
  -- The constructor; the two constants and the empty compat set come from MDSMap.
  unfoldable pub new_beacon : (state_null : ℕ) (no_standby_pref : ℤ) (no_compat : C) → Beacon T C
  new_beacon state_null no_standby_pref no_compat = record {
    want_state = state_null;
    last_seq = 0;
    sender = false;
    seq_stamp = [];
    last_acked_stamp = u.zero_time;
    was_laggy = false;
    laggy_until = u.zero_time;
    last_mon_reconnect = u.zero_time;
    standby_for_rank = no_standby_pref;
    standby_for_name = "";
    epoch = 0;
    compat = no_compat;
    health = [];
  }

  pub message : Beacon T C → MonBeacon C
  message b = record {
    state = b.want_state;
    seq = b.last_seq;
    epoch = b.epoch;
    for_rank = b.standby_for_rank;
    for_name = b.standby_for_name;
    health = b.health;
    compat = b.compat;
  }

  -- `_send`: `is_healthy` is the answer of the heartbeat map, `now` the reading of the clock.
  unfoldable pub send :
      Config T → (is_healthy : Bool) (now : T) → Beacon T C → Beacon T C × List (Effect T C)
  unfolding message
  send cfg is_healthy now b =
      let timer =
        (if b.sender then cancel_event ∷ [] else []) ++ add_event_after cfg.beacon_interval ∷ [] in
      let seq = v64 (b.last_seq + 1) in
      let sent = record b { sender = true; last_seq = seq; seq_stamp = put seq now b.seq_stamp } in
      if is_healthy
      then (sent, timer ++ send_mon_message (message sent) ∷ [])
      else (record b { sender = true }, timer)

  unfoldable pub shutdown : Beacon T C → Beacon T C × List (Effect T C)
  shutdown b = if b.sender then (record b { sender = false }, cancel_event ∷ []) else (b, [])

  -- The state after an acknowledgement of a beacon that was sent at `stamp`.
  pub acked : Config T → (seq : ℕ) (stamp now : T) → Beacon T C → Beacon T C
  acked cfg seq stamp now b =
      let on_time = b.was_laggy && u.lt (u.minus now stamp) cfg.beacon_grace in
      record b {
        last_acked_stamp = stamp;
        was_laggy = if on_time then false else b.was_laggy;
        laggy_until = if on_time then now else b.laggy_until;
        seq_stamp = drop_through seq b.seq_stamp;
      }

  -- `none`: the assertion that the acknowledged beacon is newer than the last one fails.
  unfoldable pub handle_mds_beacon :
      Config T → (seq : ℕ) (now : T) → Beacon T C → Option (Beacon T C)
  unfolding acked
  handle_mds_beacon cfg seq now b = elim (find seq b.seq_stamp) [
    | none ↦ some b
    | some stamp ↦ do assert (u.lt b.last_acked_stamp stamp); some (acked cfg seq stamp now b)
  ]

  -- The answer, the new state and the effects.
  unfoldable pub is_laggy :
      Config T → (now : T) → Beacon T C → Bool × Beacon T C × List (Effect T C)
  is_laggy cfg now b =
      let since = u.minus now b.last_acked_stamp in
      let late = record b { was_laggy = true } in
      let reconnect =
        u.lt (u.twice cfg.beacon_grace) since
        && u.lt (u.plus b.last_mon_reconnect cfg.beacon_interval) now in
      if u.same b.last_acked_stamp u.zero_time
      then (false, b, [])
      else if u.lt cfg.beacon_grace since
      then (if reconnect
          then (true, record late { last_mon_reconnect = now }, reopen_session ∷ [])
          else (true, late, []))
      else (false, b, [])

  unfoldable pub notify_want_state : ℕ → Beacon T C → Beacon T C
  notify_want_state newstate b = record b { want_state = newstate }

  module _ (compat_default : C) (merge : C → C → C) where
    unfoldable pub notify_mdsmap : (map_epoch : ℕ) (map_compat : C) → Beacon T C → Beacon T C
    notify_mdsmap map_epoch map_compat b = record b {
      epoch = map_epoch;
      compat = merge compat_default map_compat;
    }

    unfoldable pub init :
        Config T
        → (map_epoch : ℕ) (map_compat : C) (want : ℕ) (rank : ℤ) (name : String)
        → (is_healthy : Bool) (now : T) → Beacon T C
        → Beacon T C × List (Effect T C)
    unfolding notify_mdsmap
    init cfg map_epoch map_compat want rank name is_healthy now b =
        send cfg is_healthy now
          (record (notify_mdsmap map_epoch map_compat (record b { want_state = want })) {
            standby_for_rank = rank;
            standby_for_name = name;
          })
