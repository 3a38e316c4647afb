-- ===== src/Balancer/Rebalance.antt =====
-- mds/MDBalancer.cc, try_rebalance: the exports to each target, once the monitors know the targets.
-- A set of fragments is a list in the order of the set, and `import_from_map` a list in the order
-- in which it was filled; the disabled loop over `import_pop_map` is left out, and so is that map.
pub mod Twice
pub mod Returning
pub mod Ends
use mathlib.Core.List.{reverse}
use mds.Prelude.{
  ℕ, suc, ◌+◌, Bool, true, false, not, ◌&&◌, ◌||◌, Option, none, some, List, [], ◌∷◌, ◌++◌, map,
  ◌==◌, if◌then◌else◌, ◌>>=◌, ◌>>◌, assert, keep, Map,
}
use mds.Balancer.Load.{Load}
use mds.Balancer.Tree.{Info, Frag, info}
use mds.Balancer.Targets.{RankSet, Targets, Removal, Checked, check_targets}
use mds.Balancer.Exports.{
  ExportConfig, Choice, is_in, take, insert_pop, select, run_script, find_exports,
}

-- A subtree of which this server is the full authority; `from` is the authority of its inode.
pub record Root (T : Type 0) : Type 0 where
  pub dir : Frag T
  pub from : ℕ
  pub is_stray : Bool
  pub is_base : Bool
  pub is_root : Bool
  pub is_freezing : Bool
  pub in_private : Bool  -- the path has a `~` at its start

pub record RebalanceConfig (T : Type 0) : Type 0 where
  pub removal : Removal
  pub exporting : ExportConfig T
  pub minoffload : T
  pub idle_threshold : T
  pub thrash_exports : Bool

-- `export_dir_nicely(dir, target)`, as the number of the fragment and the rank.
abbrev pub Export : Type 0
Export = ℕ × ℕ

module _ {T : Type 0} (l : Load T) where
  abbrev pub pop_of : Root T → T
  pop_of r = (info r.dir).pop

  abbrev pub is_idle : RebalanceConfig T → (whoami : ℕ) → Root T → Bool
  is_idle cfg whoami r =
      l.lt l.zero cfg.idle_threshold
      && l.lt (pop_of r) cfg.idle_threshold
      && not r.is_root
      && not (r.from == whoami)

  -- The first loop: idle imports go back, and the others are listed by where they came from.
  unfoldable pub list_imports :
      RebalanceConfig T → (whoami : ℕ) → List (Root T) → List (ℕ × Root T) × List Export
  list_imports cfg whoami [] = ([], [])
  list_imports cfg whoami (r ∷ rs) =
      let rest = list_imports cfg whoami rs in
      if r.is_stray
      then rest
      else if is_idle cfg whoami r
      then (rest.0, ((info r.dir).id, r.from) ∷ rest.1)
      else ((r.from, r) ∷ rest.0, rest.1)

  pub record Returned : Type 0 where
    pub imports : List (ℕ × Root T)
    pub have : T
    pub exported : List Export

  -- The imports from the target go back to it as long as they fit; those that go are forgotten.
  unfoldable pub return_imports :
      (minoffload : T) (target : ℕ) (amount : T) → List (ℕ × Root T) → (have : T) → Option Returned
  return_imports minoffload target amount [] have =
      some (record { imports = []; have = have; exported = [] })
  return_imports minoffload target amount ((from, r) ∷ rs) have =
      let fits = l.le (pop_of r) (l.minus amount have) in
      let have' = if fits then l.plus have (pop_of r) else have in
      let skips =
        not (from == target)
        || r.is_base
        || r.is_stray
        || r.is_freezing
        || (info r.dir).is_frozen in
      let rest = return_imports minoffload target amount rs (if skips then have else have') in
      let kept = λ (o : Returned). record o { imports = (from, r) ∷ o.imports } in
      let given =
        λ (o : Returned). record o { exported = ((info r.dir).id, target) ∷ o.exported } in
      let done = λ (o : Returned). some (if fits then given o else kept o) in
      let last = done (record { imports = rs; have = have'; exported = [] }) in
      if skips
      then (rest >>= λ o. some (kept o))
      else assert (r.from == target)
        >> (if l.lt (l.minus amount have') minoffload then last else rest >>= done)

  -- The subtrees that are small enough to go whole.
  unfoldable pub small_roots :
      (amount have : T) (already : List ℕ) → List (Root T) → List (Frag T) → List (Frag T)
  small_roots amount have already [] smaller = smaller
  small_roots amount have already (r ∷ rs) smaller =
      let skips =
        r.in_private
        || r.is_stray
        || not (info r.dir).is_auth
        || is_in (info r.dir).id already
        || (info r.dir).is_frozen
        || not (l.lt (pop_of r) (l.minus amount have)) in
      small_roots amount have already rs (if skips then smaller else insert_pop l r.dir smaller)

  -- "Use the old balancer policy": here `already_exporting` is not extended.
  unfoldable pub send_biggest : (enough : T) → List (Frag T) → Choice T → Choice T
  send_biggest enough [] c = c
  send_biggest enough (f ∷ fs) c =
      let c' = record c { exports = c.exports ++ f ∷ []; have = l.plus c.have (info f).pop } in
      let rest = send_biggest enough fs c' in if l.lt enough c'.have then c' else rest

  -- "Ok, drill down", over the subtrees that are not exported.
  unfoldable pub drill_roots :
      (fuel : ℕ)
      → ExportConfig T
      → (amount enough : T) → List (Root T)
      → Choice T
      → Option (Choice T)
  drill_roots fuel cfg amount enough [] c = some c
  drill_roots fuel cfg amount enough (r ∷ rs) c =
      let i = (info r.dir).id in
      let searched =
        if is_in i (map (λ f. (info f).id) c.exports)
        then some c
        else find_exports l fuel cfg amount r.dir c in
      if is_in i c.already
      then drill_roots fuel cfg amount enough rs c
      else (searched >>= λ c'.
          (let rest = drill_roots fuel cfg amount enough rs c' in
            if l.lt enough c'.have then some c' else rest))

  -- Which of the small subtrees go whole: the script chooses, if there is one.
  unfoldable pub send_whole :
      Option (T → List T → List ℕ)
      → (amount enough : T) → List (Frag T)
      → Choice T
      → Option (Choice T)
  unfolding send_biggest
  send_whole none amount enough fs c = some (send_biggest enough fs c)
  send_whole (some howmuch) amount enough fs c = select l (run_script l howmuch amount fs) fs c

  -- The fragments of the workload that go to one target.
  unfoldable pub choose_exports :
      (fuel : ℕ)
      → RebalanceConfig T
      → (amount have : T) (already : List ℕ) → List (Root T)
      → Option (Choice T)
  unfolding small_roots send_whole drill_roots
  choose_exports fuel cfg amount have already roots =
      let fs = reverse (small_roots amount have already roots []) in
      let enough = l.minus amount cfg.minoffload in
      let start : Choice T = record { exports = []; have = have; already = already } in
      send_whole cfg.exporting.howmuch amount enough fs start >>= λ c.
      (if l.lt c.have enough then drill_roots fuel cfg.exporting amount enough roots c else some c)

  -- The loop over the targets.
  unfoldable pub send_targets :
      (fuel : ℕ)
      → RebalanceConfig T
      → List (Root T)
      → Map T
      → (imports : List (ℕ × Root T)) (already : List ℕ) → Option (List Export)
  unfolding return_imports choose_exports
  send_targets fuel cfg roots [] imports already = some []
  send_targets fuel cfg roots ((target, amount) ∷ ts) imports already =
      let next = send_targets fuel cfg roots ts in
      if l.lt amount cfg.minoffload
      then next imports already
      else (return_imports cfg.minoffload target amount imports l.zero >>= λ back.
          (if l.lt (l.minus amount back.have) cfg.minoffload
            then (next back.imports already >>= λ es. some (back.exported ++ es))
            else (choose_exports fuel cfg amount back.have already roots >>= λ c.
                (next back.imports c.already >>= λ es.
                some (back.exported ++ (map (λ f. ((info f).id, target)) c.exports ++ es))))))

  -- The answer of the check of the targets, and what is exported; `none` if an assertion fails or
  -- the fuel, for which the depth of the trees is enough, runs out.
  unfoldable pub try_rebalance :
      (fuel : ℕ)
      → RebalanceConfig T
      → (whoami : ℕ) (map_targets : RankSet) → List (Root T)
      → Targets T
      → Option (Checked T × List Export)
  unfolding list_imports send_targets
  try_rebalance fuel cfg whoami map_targets roots b =
      let checked = check_targets cfg.removal map_targets b in
      let (imports, idle) = list_imports cfg whoami roots in
      if not checked.ok || cfg.thrash_exports
      then some (checked, [])
      else (send_targets fuel cfg roots b.my_targets imports [] >>= λ es.
          some (checked, idle ++ es))
