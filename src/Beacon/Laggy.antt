-- ===== src/Beacon/Laggy.antt =====
-- mds/Beacon.cc, `is_laggy`: when a server takes itself for laggy, and what it does about it.
use mds.Prelude.{ℕ, ◌≡◌, true, false, some, List, [], ◌∷◌, arith, find}
use mds.Time.{UTime, IsClock}
use mds.Beacon.{Config, Beacon, Effect, reopen_session, handle_mds_beacon, is_laggy}

module _ {T C : Type 0} (u : UTime T) (c : IsClock u) (cfg : Config T) where
  -- A laggy server that gets a timely acknowledgement is no longer laggy: the flag is cleared, the
  -- time is noted, and a check at the same reading of the clock answers no, changes nothing and
  -- asks for nothing.
  laggy_recovers :
      (seq : ℕ) (stamp now : T) (b b' : Beacon T C)
      → find seq b.seq_stamp ≡ some stamp
      → b.was_laggy ≡ true
      → u.lt (u.minus now stamp) cfg.beacon_grace ≡ true
      → handle_mds_beacon u cfg seq now b ≡ some b'
      → (b'.was_laggy ≡ false) × (b'.laggy_until ≡ now) × (is_laggy u cfg now b' ≡ (false, b', []))
  unfolding handle_mds_beacon is_laggy
  laggy_recovers seq stamp now b b' e w on_time h =
      ground (arith, c.lt_asymm (u.minus now stamp) cfg.beacon_grace)

  -- A check that opens a new session with the monitors answers yes, and no check until an interval
  -- has passed opens another, whatever was acknowledged in between.
  reconnects_are_spaced :
      (now later : T) (b b' : Beacon T C) (es : List (Effect T C))
      → is_laggy u cfg now b ≡ (true, b', reopen_session ∷ es)
      → (d : Beacon T C) → d.last_mon_reconnect ≡ b'.last_mon_reconnect
      → u.lt (u.plus now cfg.beacon_interval) later ≡ false
      → (is_laggy u cfg later d).2 ≡ []
  unfolding is_laggy
  reconnects_are_spaced now later b b' es h d same soon = ground arith
