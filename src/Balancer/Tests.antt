-- ===== src/Balancer/Tests.antt =====
-- Runs of the balancer's operations.
use mds.Prelude.{
  ℕ, ◌+◌, ◌-◌, ◌*◌, ◌/◌, ◌≡◌, ◌⊎◌, refl, ◌↔◌, true, false, not, ◌&&◌, ◌||◌, none, some, List, [],
  ◌∷◌, arith, if◌then◌else◌, find, ltb, leb, All,
}
use mds.Balancer.Load.{Load}
use mds.Balancer.Matching.{
  MatchConfig, Cluster, MdsLoad, Prep, Rebalanced, is_under, is_early, prep_rebalance,
}
use mds.Balancer.Matching.Fairness.{Finite}
use mds.Balancer.Matching.Whole.{IsFair, prep_rebalance_lem}
use mds.Balancer.Tree.{
  Frag, frag, nil, no_inode, file, directory, end, more, entries, count_entries, depth_frag,
}
use mds.Balancer.Exports.{ExportConfig, Choice, find_exports}
use mds.Balancer.Exports.Choosing.{Grew}
use mds.Balancer.Exports.Searching.{find_exports_lem}
use mds.Balancer.Rebalance.{Root, RebalanceConfig, Export, try_rebalance}
use mds.Balancer.Rebalance.Twice.{exported_twice}
use mds.Balancer.Rebalance.Returning.{Wants, GivesBack}
use mds.Balancer.Rebalance.Ends.{try_rebalance_lem}
use mds.Prelude.Int.{pos, ltb_ℤ}
use mds.Balancer.Targets.{
  RankSet, is_some, or_zero, has, Targets, Removal, Checked, check_targets, one_unknown,
}
use mds.Balancer.Targets.Aging.{check_targets_lem}

-- This server exports to ranks 1 and 4; the monitors know of 1 and 2, and 3 was a target before.
abbrev removal : Removal
removal = record { target_removal_min = pos 5; target_removal_max = pos 10 }

abbrev known : RankSet
known = (1, tt) ∷ (2, tt) ∷ []

abbrev exporter : Targets ℕ
exporter = record {
  my_targets = (1, 30) ∷ (4, 10) ∷ [];
  old_prev_targets = (1, 2) ∷ (2, 7) ∷ (3, 1) ∷ [];
}

abbrev checked : Checked ℕ
checked = check_targets removal known exporter

check_targets_lem_example :
    ((checked.ok ≡ true) ↔ ((r : ℕ) → has r exporter.my_targets ≡ true → has r known ≡ true))
    × ((r : ℕ)
        → find r checked.targets.old_prev_targets ≡ (
            if has r exporter.my_targets
            then some 0
            else if has r known
            then some (or_zero (find r exporter.old_prev_targets) + 1)
            else none))
    × ((checked.ok ≡ false) → is_some checked.sent ≡ true)
    × ((w : RankSet) (r : ℕ)
        → checked.sent ≡ some w
        → has r w ≡ (
            has r exporter.my_targets
            || (has r known
                && ltb_ℤ
                    (pos (or_zero (find r checked.targets.old_prev_targets)))
                    removal.target_removal_min)))
check_targets_lem_example =
    check_targets_lem removal known exporter (omega arith, (omega arith, tt))
      (omega arith, (omega arith, (omega arith, tt)))

-- Loads in ℕ.
abbrev load : Load ℕ
load = record {
  zero = 0;
  plus = λ x y. x + y;
  minus = λ x y. x - y;
  times = λ x y. x * y;
  lt = ltb;
  le = leb;
}

abbrev by_sizes : ExportConfig ℕ
by_sizes = record {
  min_start = 0;
  need_max = 2;
  need_min = 1;
  midchunk = 0;
  minchunk = 0;
  howmuch = none;
}

abbrev leaf : ℕ → ℕ → Frag ℕ
leaf id pop =
    frag (record { id = id; pop = pop; is_auth = true; is_frozen = false; is_rep = false }) nil

abbrev home : Frag ℕ
home =
    frag (record { id = 1; pop = 8; is_auth = true; is_frozen = false; is_rep = false })
      (file (directory (more (leaf 2 5) (more (leaf 3 2) end)) (no_inode nil)))

abbrev nothing : Choice ℕ
nothing = record { exports = []; have = 0; already = 9 ∷ [] }

find_exports_lem_example :
    (c : Choice ℕ) × (find_exports load 2 by_sizes 4 home nothing ≡ some c)
    × Grew load nothing (λ n. count_entries n (entries home)) nothing c
unfolding depth_frag
find_exports_lem_example = find_exports_lem load by_sizes 4 refl 2 home nothing (omega arith)

abbrev root : Root ℕ
root = record {
  dir = home;
  from = 0;
  is_stray = false;
  is_base = false;
  is_root = true;
  is_freezing = false;
  in_private = false;
}

abbrev rebalancing : RebalanceConfig ℕ
rebalancing = record {
  removal = removal;
  exporting = by_sizes;
  minoffload = 5;
  idle_threshold = 0;
  thrash_exports = false;
}

abbrev wanting : Targets ℕ
wanting = record { my_targets = (1, 10) ∷ (2, 12) ∷ []; old_prev_targets = [] }

exported_twice_example :
    try_rebalance load 2 rebalancing 0 known (root ∷ []) wanting
    ≡ some (check_targets removal known wanting, (1, 1) ∷ (1, 2) ∷ [])
unfolding check_targets one_unknown
exported_twice_example =
    exported_twice load 2 rebalancing root refl (refl, refl, refl, refl) 0 known wanting 1 2 10 12
      refl refl refl refl (refl, refl, refl, refl, refl) (refl, refl, refl, refl, refl)

try_rebalance_lem_example :
    (es : List Export) × (try_rebalance load 2 rebalancing 0 known (root ∷ []) wanting
      ≡ some (check_targets removal known wanting, es))
    × (((check_targets removal known wanting).ok && not false) ≡ false → es ≡ [])
    × All
        (λ e.
          Wants load rebalancing wanting.my_targets e.1
          ⊎ GivesBack load rebalancing 0 (root ∷ []) e)
        es
unfolding depth_frag
try_rebalance_lem_example =
    try_rebalance_lem load 2 rebalancing refl (root ∷ []) (omega arith, tt) 0 known wanting

abbrev matching : MatchConfig ℕ
matching = record {
  mode = 2;
  eight_tenths = 1;
  two_tenths = 1;
  ten = 10;
  one = 1;
  thousandth = 1;
  min_rebalance = 0;
  divide = λ x y. x / y;
  from_nat = λ n. n;
  narrow = λ x. x;
}

matching-Finite : Finite load matching.thousandth
matching-Finite = record {
  used_up = λ x. ground arith;
  not_positive = λ x h. ground (arith, h);
  from_zero = λ x h. ground (arith, h);
  both_positive = λ x y h k. ground (arith, h, k);
}

-- This server has a load of 40; rank 1 has one of 4, and rank 2 sent none.
abbrev cluster : Cluster ℕ
cluster = record {
  whoami = 0;
  cluster_size = 3;
  up_mds = 0 ∷ 1 ∷ 2 ∷ [];
  import_map = λ _. [];
  fresh = 0;
}

abbrev loaded : ℕ → MdsLoad ℕ
loaded n = record { auth = n; auth_now = n; all = n; req_rate = 0; queue_len = 0; cpu_load_avg = n }

abbrev beating : Prep ℕ
beating = record {
  beat_epoch = 5;
  last_epoch_under = 2;
  last_epoch_over = 4;
  mds_load = (0, loaded 40) ∷ (1, loaded 4) ∷ [];
  mds_meta_load = [];
  my_load = 0;
  target_load = 0;
  my_targets = (7, 3) ∷ [];
  imported = [];
  exported = [];
  old_prev_targets = [];
}

prep_rebalance_lem_example :
    (o : Rebalanced load matching) × (prep_rebalance load matching 2 rebalancing cluster known
        (root ∷ [])
        5
        beating
      ≡ some o)
    × All
        (IsFair load matching matching-Finite cluster
          (omega arith)
          rebalancing
          refl
          (root ∷ [])
          o.state)
        o.exports
    × ((false || is_under load matching o.state || is_early load matching o.state) ≡ true
        → o.exports ≡ [])
unfolding depth_frag
prep_rebalance_lem_example =
    prep_rebalance_lem load matching matching-Finite cluster (omega arith) rebalancing refl 2 known
      (root ∷ []) (omega arith, tt) 5 beating
