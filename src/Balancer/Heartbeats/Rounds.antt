-- ===== src/Balancer/Heartbeats/Rounds.antt =====
-- mds/MDBalancer.cc, heartbeats: a round, from the heartbeat of rank 0 on.
use mds.Prelude.{
  ℕ, ◌+◌, ◌≡◌, refl, true, false, not, none, List, [], ◌∷◌, ◌++◌, map, ◌==◌, if◌then◌else◌, Map,
  put, find, length, keep, arith,
}
use mds.Balancer.Load.{Load}
use mds.Balancer.Matching.{MdsLoad}
use mds.Balancer.Heartbeats.{
  Surroundings, Beat, Decision, noted, decide, import_sums, send_heartbeat, handle_heartbeat,
}

length-put_new :
    {V : Type 0} (k : ℕ) (v : V) (m : Map V) → find k m ≡ none → length (put k v m) ≡ length m + 1
length-put_new k v [] h = omega arith
length-put_new k v ((j, w) ∷ m) h = ground (arith, h, length-put_new k v m)

-- A heartbeat of another rank.
pub record Heartbeat (T : Type 0) : Type 0 where
  pub who : ℕ
  pub beat : ℕ
  pub load : MdsLoad T
  pub imports : Map T

-- The ranks are not 0, none of them is in the map, and no two are the same.
abbrev pub AreNew : {T : Type 0} → List (Heartbeat T) → Map (MdsLoad T) → Type 0
AreNew [] m = Unit
AreNew (h ∷ hs) m = ((h.who == 0) ≡ false) × (find h.who m ≡ none) × AreNew hs (put h.who h.load m)

module _ {T : Type 0} (l : Load T) (e : Surroundings T) where
  abbrev pub Ready : Type 0
  Ready = (e.is_active ≡ true) × (e.is_open ≡ true) × (e.is_degraded ≡ false)

  unfoldable pub hear : List (Heartbeat T) → Beat T → Beat T × List Decision
  hear [] b = (b, [])
  hear (h ∷ hs) b =
      let (b', d) = handle_heartbeat l e h.who h.beat h.load h.imports b in
      let (b'', ds) = hear hs b' in (b'', d ∷ ds)

  -- All but the last are noted.
  abbrev pub all_noted : List (Heartbeat T) → List Decision
  all_noted [] = []
  all_noted (h ∷ []) = decide l e.bal_lua ∷ []
  all_noted (h ∷ g ∷ hs) = noted ∷ all_noted (g ∷ hs)

  hear_lem :
      (hs : List (Heartbeat T)) (b : Beat T)
      → Ready
      → AreNew hs b.mds_load
      → length b.mds_load + length hs ≡ e.cluster_size
      → (hear hs b).1 ≡ all_noted hs
  unfolding hear handle_heartbeat
  hear_lem [] b r new all = refl
  hear_lem (h ∷ []) b r new all =
      ground (arith, r, new.0, all, length-put_new h.who h.load b.mds_load new.1)
  hear_lem (h ∷ g ∷ hs) b r new all =
      let b' : Beat T = record b {
        mds_load = put h.who h.load b.mds_load;
        mds_import_map = put h.who h.imports b.mds_import_map;
      } in
      let one = length-put_new h.who h.load b.mds_load new.1 in
      let rest = hear_lem (g ∷ hs) b' r new.2 (omega (arith, one, all)) in
      let more : (length b'.mds_load == e.cluster_size) ≡ false = ground (arith, one, all) in
      let step : handle_heartbeat l e h.who h.beat h.load h.imports b ≡ (b', noted) =
        ground (arith, r, new.0, more) in
      rw (step, rest) refl

  at_once :
      (z : Heartbeat T) (hs : List (Heartbeat T)) (m : Map (MdsLoad T))
      → length m ≡ 2
      → 2 + length hs ≡ e.cluster_size
      → (if length m == e.cluster_size then decide l e.bal_lua else noted) ∷ all_noted hs
        ≡ all_noted (z ∷ hs)
  at_once z [] m two all = ground (arith, two, all)
  at_once z (h ∷ hs) m two all = ground (arith, two, all)

  -- An active server of another rank, in a cluster that is not degraded, hears rank 0 and then each
  -- rank that is left once: whatever it knew of the loads before, it takes the beat of rank 0, only
  -- notes each heartbeat but the last, and at the last one does what the option says.
  pub round_lem :
      (beat : ℕ) (load : MdsLoad T) (imports : Map T) (hs : List (Heartbeat T)) (b : Beat T)
      → Ready
      → (e.whoami == 0) ≡ false
      → AreNew hs (put 0 load (put e.whoami e.load []))
      → 2 + length hs ≡ e.cluster_size
      → let z : Heartbeat T = record { who = 0; beat = beat; load = load; imports = imports } in
        ((hear (z ∷ hs) b).1 ≡ all_noted (z ∷ hs))
        × ((handle_heartbeat l e 0 beat load imports b).0.beat_epoch ≡ beat)
  unfolding hear handle_heartbeat send_heartbeat
  round_lem beat load imports hs b r other new all =
      let own = put e.whoami e.load [] in
      let b' : Beat T = record {
        beat_epoch = beat;
        mds_load = put 0 load own;
        mds_import_map =
            put 0 imports (put e.whoami (import_sums l e.whoami e.subtrees []) b.mds_import_map);
        sent = map (λ q. (q, beat)) (keep (λ q. not (q == e.whoami)) e.up) ++ b.sent;
      } in
      let d = if length (put 0 load own) == e.cluster_size then decide l e.bal_lua else noted in
      let step : handle_heartbeat l e 0 beat load imports b ≡ (b', d) =
        rw (r.0, r.1, r.2, other) refl in
      let two : length (put 0 load own) ≡ 2 = ground (arith, other) in
      let rest = hear_lem hs b' r new (omega (arith, two, all)) in
      (
        rw (step, rest)
            (at_once (record { who = 0; beat = beat; load = load; imports = imports }) hs
              (put 0 load own) two all),
        rw step refl,
      )
