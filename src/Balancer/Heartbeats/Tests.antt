-- ===== src/Balancer/Heartbeats/Tests.antt =====
-- A round of four servers.
use mds.Prelude.{ℕ, ◌+◌, ◌-◌, ◌*◌, ◌≡◌, refl, true, false, [], ◌∷◌, arith, ltb, leb}
use mds.Balancer.Load.{Load}
use mds.Balancer.Matching.{MdsLoad}
use mds.Balancer.Heartbeats.{Surroundings, Beat, handle_heartbeat}
use mds.Balancer.Heartbeats.Rounds.{Heartbeat, hear, all_noted, round_lem}

abbrev numbers : Load ℕ
numbers = record {
  zero = 0;
  plus = λ x y. x + y;
  minus = λ x y. x - y;
  times = λ x y. x * y;
  lt = ltb;
  le = leb;
}

abbrev loaded : ℕ → MdsLoad ℕ
loaded n = record { auth = n; auth_now = n; all = n; req_rate = 0; queue_len = 0; cpu_load_avg = n }

abbrev around : Surroundings ℕ
around = record {
  whoami = 2;
  is_active = true;
  is_open = true;
  is_degraded = false;
  cluster_size = 4;
  up = 0 ∷ 1 ∷ 2 ∷ 3 ∷ [];
  bal_lua = 0;
  load = loaded 8;
  subtrees = record { from = 1; is_stray = false; pop = 5 } ∷ [];
}

-- It still has the load of a rank that is gone.
abbrev beating : Beat ℕ
beating = record { beat_epoch = 6; mds_load = (9, loaded 1) ∷ []; mds_import_map = []; sent = [] }

abbrev zeroth : Heartbeat ℕ
zeroth = record { who = 0; beat = 7; load = loaded 3; imports = [] }

abbrev third : Heartbeat ℕ
third = record { who = 3; beat = 7; load = loaded 4; imports = [] }

abbrev first : Heartbeat ℕ
first = record { who = 1; beat = 7; load = loaded 2; imports = [] }

round_lem_example :
    ((hear numbers around (zeroth ∷ third ∷ first ∷ []) beating).1
      ≡ all_noted numbers around (zeroth ∷ third ∷ first ∷ []))
    × ((handle_heartbeat numbers around 0 7 (loaded 3) [] beating).0.beat_epoch ≡ 7)
round_lem_example =
    round_lem numbers around 7 (loaded 3) [] (third ∷ first ∷ []) beating (refl, refl, refl) refl
      (refl, refl, (refl, refl, tt)) (omega arith)
