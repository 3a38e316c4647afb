-- ===== src/Balancer/Matching.antt =====
-- mds/MDBalancer.cc, prep_rebalance: which ranks this server is to send load to, before it calls
-- try_rebalance. The multimaps from loads to ranks are lists in their order; of the loads of
-- heartbeats the model keeps what mds_load and prep_rebalance read of them, with the `meta_load` of
-- their vectors, whose counters are not part of the repository, as numbers.
pub mod Rescaling
pub mod Fairness
pub mod Whole
use mathlib.Core.List.{reverse}
use mds.Prelude.{
  ℕ, zero, suc, ◌+◌, Bool, true, false, not, ◌&&◌, ◌||◌, Option, none, some, List, [], ◌∷◌, ◌++◌,
  map, ◌==◌, ◌%◌, if◌then◌else◌, ◌>>=◌, Map, find, put, ltb, length,
}
use mds.Balancer.Load.{Load}
use mds.Balancer.Tree.{Frag}
use mds.Balancer.Targets.{RankSet, Targets, Checked}
use mds.Balancer.Rebalance.{Root, RebalanceConfig, Export, try_rebalance}

-- The constants of the code, the options, and the arithmetic that only prep_rebalance does;
-- `narrow` is the conversion to `float`.
pub record MatchConfig (T : Type 0) : Type 0 where
  pub mode : ℕ
  pub eight_tenths : T
  pub two_tenths : T
  pub ten : T
  pub one : T
  pub thousandth : T
  pub min_rebalance : T
  pub divide : T → T → T
  pub from_nat : ℕ → T
  pub narrow : T → T

pub record MdsLoad (T : Type 0) : Type 0 where
  pub auth : T  -- auth.meta_load()
  pub auth_now : T  -- auth.meta_load(rebalance_time, decayrate)
  pub all : T  -- all.meta_load()
  pub req_rate : T
  pub queue_len : T
  pub cpu_load_avg : T

-- What the server knows of the cluster; `import_map` has the keys of the maps in mds_import_map,
-- and `fresh` the `meta_load` of new counters.
pub record Cluster (T : Type 0) : Type 0 where
  pub whoami : ℕ
  pub cluster_size : ℕ
  pub up_mds : List ℕ
  pub import_map : ℕ → List ℕ
  pub fresh : T

pub record Prep (T : Type 0) : Type 0 where
  pub beat_epoch : ℕ
  pub last_epoch_under : ℕ
  pub last_epoch_over : ℕ
  pub mds_load : Map (MdsLoad T)
  pub mds_meta_load : Map T
  pub my_load : T
  pub target_load : T
  pub my_targets : Map T
  pub imported : Map T
  pub exported : Map T
  pub old_prev_targets : Map ℕ

-- A multimap from loads to ranks.
abbrev pub Loads : Type 0 → Type 0
Loads T = List (T × ℕ)

module _ {T : Type 0} (l : Load T) where
  -- `m[r]`, which a missing key reads as zero.
  abbrev pub at : Map T → ℕ → T
  at m r = elim (find r m) [ none ↦ l.zero | some x ↦ x ]

  -- `m[r] += x`.
  abbrev pub add_at : ℕ → T → Map T → Map T
  add_at r x m = put r (l.plus (at m r) x) m

  -- `insert(pair(x, r))`: behind those of the same load.
  unfoldable pub insert_load : T × ℕ → Loads T → Loads T
  insert_load p [] = p ∷ []
  insert_load p (q ∷ qs) = if l.lt p.0 q.0 then p ∷ q ∷ qs else q ∷ insert_load p qs

  unfoldable pub get_maxim : Prep T → ℕ → T
  get_maxim s im = l.minus (l.minus s.target_load (at s.mds_meta_load im)) (at s.imported im)

  unfoldable pub get_maxex : Prep T → ℕ → T
  get_maxex s ex = l.minus (l.minus (at s.mds_meta_load ex) s.target_load) (at s.exported ex)

  -- The state, and what is left of `maxex` and `maxim`.
  unfoldable pub try_match :
      (whoami ex : ℕ) (maxex : T) (im : ℕ) (maxim : T) → Prep T → Prep T × T × T
  try_match whoami ex maxex im maxim s =
      let howmuch = if l.lt maxex maxim then maxex else maxim in
      let matched : Prep T = record s {
        my_targets = if ex == whoami then add_at im howmuch s.my_targets else s.my_targets;
        exported = add_at ex howmuch s.exported;
        imported = add_at im howmuch s.imported;
      } in
      if l.le maxex l.zero || l.le maxim l.zero || l.le howmuch l.zero
      then (s, maxex, maxim)
      else (matched, l.minus maxex howmuch, l.minus maxim howmuch)

  module _ (cfg : MatchConfig T) where
    -- mds_load_t::mds_load, by the mode of the balancer.
    unfoldable pub mds_load : MdsLoad T → Option T
    mds_load x =
        if cfg.mode == 0
        then some (
            l.plus
              (l.plus (l.plus (l.times cfg.eight_tenths x.auth) (l.times cfg.two_tenths x.all))
                x.req_rate)
              (l.times cfg.ten x.queue_len))
        else if cfg.mode == 1
        then some (l.plus x.req_rate (l.times cfg.ten x.queue_len))
        else if cfg.mode == 2
        then some x.cpu_load_avg
        else none

    -- The factor that turns loads back into those of the metadata.
    unfoldable pub load_factor : (whoami : ℕ) → Map (MdsLoad T) → Option T
    unfolding mds_load
    load_factor whoami loads = elim (find whoami loads) [
      | none ↦ some cfg.one
      | some m ↦
          mds_load m >>= λ x. some (if l.lt l.zero x then cfg.divide m.auth_now x else cfg.one)
    ]

    abbrev pub load_of : (fresh : T) → Map (MdsLoad T) → ℕ → MdsLoad T
    load_of fresh loads i = elim (find i loads) [
      | none ↦ record {
        auth = fresh;
        auth_now = fresh;
        all = fresh;
        req_rate = l.zero;
        queue_len = l.zero;
        cpu_load_avg = l.zero;
      }
      | some m ↦ m
    ]

    -- The loop over the ranks, from `i` on: the state, the sum and the map of the loads.
    unfoldable pub rescale :
        Cluster T
        → (load_fac : T) (left i : ℕ) → Prep T
        → (total : T) → Loads T
        → Option (Prep T × T × Loads T)
    unfolding mds_load insert_load
    rescale c load_fac zero i s total loads = some (s, total, loads)
    rescale c load_fac (suc left) i s total loads =
        let load = load_of c.fresh s.mds_load i in
        mds_load load >>= λ x.
        (let y = l.times x load_fac in
          let s' : Prep T = record s {
            mds_load = put i load s.mds_load;
            mds_meta_load = put i (cfg.narrow y) s.mds_meta_load;
            my_load = if c.whoami == i then y else s.my_load;
          } in
          rescale c load_fac left (suc i) s' (l.plus total y) (insert_load (y, i) loads))

    -- Importers are below the target load.
    unfoldable pub separate :
        (target_load : T) → Loads T → (importers exporters : Loads T) → Loads T × Loads T
    unfolding insert_load
    separate target_load [] importers exporters = (importers, exporters)
    separate target_load (p ∷ ps) importers exporters =
        let below = l.lt p.0 target_load in
        separate target_load ps (if below then insert_load p importers else importers)
          (if below then exporters else insert_load p exporters)

    -- The ranks that an exporter imports from.
    unfoldable pub match_imports : (whoami ex : ℕ) (maxex : T) → List ℕ → Prep T → Prep T
    unfolding get_maxim try_match
    match_imports whoami ex maxex [] s = s
    match_imports whoami ex maxex (im ∷ ims) s =
        let maxim = get_maxim s im in
        let (s', maxex', _) = try_match whoami ex maxex im maxim s in
        let skipped = match_imports whoami ex maxex ims s in
        let rest = match_imports whoami ex maxex' ims s' in
        if l.le maxim cfg.thousandth
        then skipped
        else if l.le maxex' cfg.thousandth
        then s'
        else rest

    -- Exporters to those that they import from.
    unfoldable pub match_sources : Cluster T → (exporters : Loads T) → Prep T → Prep T
    unfolding get_maxex match_imports
    match_sources c [] s = s
    match_sources c ((_, ex) ∷ exs) s =
        let maxex = get_maxex s ex in
        match_sources c exs (
          if l.le maxex cfg.thousandth
          then s
          else match_imports c.whoami ex maxex (c.import_map ex) s)

    -- Exporters to importers, each in its order.
    unfoldable pub match_lists :
        (fuel whoami : ℕ) (exporters importers : Loads T) → Prep T → Option (Prep T)
    unfolding get_maxex get_maxim try_match
    match_lists fuel whoami [] importers s = some s
    match_lists fuel whoami (ex ∷ exs) [] s = some s
    match_lists zero whoami (ex ∷ exs) (im ∷ ims) s = none
    match_lists (suc fuel) whoami (ex ∷ exs) (im ∷ ims) s =
        let maxex = get_maxex s ex.1 in
        let maxim = get_maxim s im.1 in
        let (s', maxex', maxim') = try_match whoami ex.1 maxex im.1 maxim s in
        let rest =
          match_lists fuel whoami (if l.le maxex' cfg.thousandth then exs else ex ∷ exs)
            (if l.le maxim' cfg.thousandth then ims else im ∷ ims) s' in
        if l.lt maxex cfg.thousandth || l.lt maxim cfg.thousandth then some s else rest

    -- The matching, on fuel for the two lists.
    unfoldable pub match_all : Cluster T → (beat : ℕ) → Loads T → Prep T → Option (Prep T)
    unfolding separate match_sources match_lists
    match_all c beat load_map s =
        let (importers, exporters) = separate s.target_load load_map [] [] in
        let big_first = reverse exporters in
        match_lists (length exporters + length importers) c.whoami
          (if beat % 2 == 1 then big_first else exporters) importers (match_sources c big_first s)

    -- The loads of the ranks, with what is targeted forgotten, and the load to aim at.
    unfoldable pub cluster_loads : Cluster T → Prep T → Option (Prep T × Loads T)
    unfolding load_factor rescale
    cluster_loads c s =
        let s₁ : Prep T = record s { my_targets = []; imported = []; exported = [] } in
        load_factor c.whoami s₁.mds_load >>= λ load_fac.
        (rescale c load_fac c.cluster_size 0 s₁ l.zero [] >>= λ (s₂, total, load_map).
        some (record s₂ { target_load = cfg.divide total (cfg.from_nat c.cluster_size) }, load_map))

    abbrev pub is_under : Prep T → Bool
    is_under s = l.lt s.my_load (l.times s.target_load (l.plus cfg.one cfg.min_rebalance))

    -- Overloaded for less than two epochs.
    abbrev pub is_early : Prep T → Bool
    is_early s = not (s.last_epoch_under == 0) && ltb s.beat_epoch (s.last_epoch_under + 2)

    abbrev pub target_all : List ℕ → Map T → Map T
    target_all [] m = m
    target_all (r ∷ rs) m = target_all rs (put r l.zero m)

    -- The part before the call of try_rebalance, and whether it is reached.
    unfoldable pub prepare :
        (thrash_exports : Bool) → Cluster T → (beat : ℕ) → Prep T → Option (Prep T × Bool)
    unfolding cluster_loads match_all
    prepare thrash_exports c beat s =
        if thrash_exports
        then some (record s { my_targets = target_all c.up_mds [] }, true)
        else (cluster_loads c s >>= λ (s', load_map).
            (if is_under s'
              then some (record s' { last_epoch_under = s'.beat_epoch }, false)
              else if is_early s'
              then some (record s' { last_epoch_over = s'.beat_epoch }, false)
              else (match_all c beat load_map (record s' { last_epoch_over = s'.beat_epoch })
                  >>= λ s''. some (s'', true))))

    abbrev pub targets : Prep T → Targets T
    targets s = record { my_targets = s.my_targets; old_prev_targets = s.old_prev_targets }

    pub record Rebalanced : Type 0 where
      pub state : Prep T
      pub sent : Option RankSet
      pub exports : List Export

    -- The whole of prep_rebalance; `fuel` is that of try_rebalance.
    unfoldable pub prep_rebalance :
        (fuel : ℕ)
        → RebalanceConfig T
        → Cluster T
        → (map_targets : RankSet) → List (Root T)
        → (beat : ℕ) → Prep T
        → Option Rebalanced
    unfolding prepare
    prep_rebalance fuel rcfg c map_targets roots beat s =
        prepare rcfg.thrash_exports c beat s >>= λ (s', reached).
        (if reached
          then (try_rebalance l fuel rcfg c.whoami map_targets roots (targets s')
              >>= λ (checked, es). some (record {
                state = record s' { old_prev_targets = checked.targets.old_prev_targets };
                sent = checked.sent;
                exports = es;
              }))
          else some (record { state = s'; sent = none; exports = [] }))
