-- ===== src/Beacon/Tests.antt =====
-- Runs of the beacon, over whole ticks.
use mathlib.Core.Option
use mds.Prelude.{
  ℕ, ◌≡◌, refl, ◌⊎◌, Bool, true, false, none, some, List, [], ◌∷◌, arith, Map, find, leb,
  if◌then◌else◌,
}
use mds.Prelude.Int.{negsuc}
use mds.Time.{ticks, ticks-IsClock}
use mds.Beacon.{Beacon, Config, new_beacon, handle_mds_beacon, is_laggy, send, drop_through}
use mds.Beacon.Acks.{Event, sends, acks, checks, run, Inv, run_never_fails, handle_mds_beacon_lem}

abbrev cfg : Config ℕ
cfg = record { beacon_interval = 4; beacon_grace = 15 }

abbrev fresh : Beacon ℕ ℕ
fresh = record {
  want_state = 0;
  last_seq = 0;
  sender = false;
  seq_stamp = [];
  last_acked_stamp = 0;
  was_laggy = false;
  laggy_until = 0;
  last_mon_reconnect = 0;
  standby_for_rank = negsuc 0;
  standby_for_name = "";
  epoch = 0;
  compat = 7;
  health = [];
}

abbrev history : List (ℕ × Event)
history =
    (1, sends true)
    ∷ (5, sends false)
    ∷ (6, sends true)
    ∷ (7, acks 1)
    ∷ (9, acks 1)
    ∷ (40, checks)
    ∷ []

history_ends :
    Option.map {B = Map ℕ × ℕ × Bool}
      (λ b. (b.seq_stamp, b.last_acked_stamp, b.was_laggy))
      (run ticks cfg history fresh)
    ≡ some ((2, 6) ∷ [], 1, true)
unfolding run send handle_mds_beacon is_laggy drop_through
history_ends = refl

run_never_fails_example :
    (b : Beacon ℕ ℕ) × (now : ℕ) × (run ticks cfg history (new_beacon ticks 0 (negsuc 0) 7)
      ≡ some b)
    × Inv ticks now b
run_never_fails_example =
    run_never_fails ticks ticks-IsClock cfg 0 (negsuc 0) 7 history
      (refl, (refl, (refl, (refl, (refl, (refl, tt)))))) (omega arith)

abbrev waiting : Beacon ℕ ℕ
waiting = record fresh {
  last_seq = 3;
  seq_stamp = (1, 10) ∷ (2, 14) ∷ (3, 18) ∷ [];
  last_acked_stamp = 6;
  was_laggy = true;
}

waiting-Inv : Inv ticks 18 waiting
waiting-Inv = record {
  keys_rise = omega arith;
  keys_sent = omega arith;
  stamps_rise = ground arith;
  stamps_past = λ now h. ground arith;
  acked_past = λ now h. ground arith;
}

handle_mds_beacon_lem_example :
    (b' : Beacon ℕ ℕ) × (handle_mds_beacon ticks cfg 2 20 waiting ≡ some b')
    × (((stamp : ℕ) × (find 2 waiting.seq_stamp ≡ some stamp)
          × (b'.last_acked_stamp ≡ stamp)
          × ((j : ℕ) → find j b'.seq_stamp ≡ (if leb j 2 then none else find j waiting.seq_stamp)))
        ⊎ ((find 2 waiting.seq_stamp ≡ none) × (b' ≡ waiting)))
handle_mds_beacon_lem_example =
    handle_mds_beacon_lem ticks ticks-IsClock cfg 2 18 20 waiting refl waiting-Inv
