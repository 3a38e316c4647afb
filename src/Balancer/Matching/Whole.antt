-- ===== src/Balancer/Matching/Whole.antt =====
-- mds/MDBalancer.cc, prep_rebalance with try_rebalance: from the loads of the cluster to the
-- exports.
use mds.Prelude.{
  ℕ, ◌<◌, ◌≡◌, ◌⊎◌, inl, inr, refl, sym, ap, ◌∙◌, subst, Bool, true, false, ◌||◌, none, some, List,
  [], ◌∷◌, map, arith, All, All-mono, Map, find, Bool-cases,
}
use mds.Balancer.Load.{Load}
use mds.Balancer.Tree.{Shallow}
use mds.Balancer.Targets.{RankSet, check_targets}
use mds.Balancer.Exports.{is_in}
use mds.Balancer.Rebalance.{Root, RebalanceConfig, Export}
use mds.Balancer.Rebalance.Returning.{Wants, GivesBack}
use mds.Balancer.Rebalance.Ends.{try_rebalance_lem}
use mds.Balancer.Matching.{
  MatchConfig, Cluster, Prep, is_under, is_early, prepare, targets, target_all, Rebalanced,
  prep_rebalance,
}
use mds.Balancer.Matching.Rescaling.{IsMode, cluster_loads_lem}
use mds.Balancer.Matching.Fairness.{Finite, Fair, match_all_lem}

All-is_in : (xs : List ℕ) → All (λ x. is_in x xs ≡ true) xs
All-is_in [] = tt
All-is_in (x ∷ xs) = (
  ground arith,
  All-mono (λ y. is_in y xs ≡ true) (λ y. is_in y (x ∷ xs) ≡ true) xs (λ y h. ground (arith, h))
      (All-is_in xs),
)

module _ {T : Type 0} (l : Load T) (cfg : MatchConfig T) (finite : Finite l cfg.thousandth)
    (c : Cluster T) where
  -- This server imported from the rank.
  abbrev pub IsSource : ℕ → Type 0
  IsSource r = is_in r (c.import_map c.whoami) ≡ true

  -- The rank is one of the cluster whose load is below the target load.
  abbrev pub IsBelow : Prep T → ℕ → Type 0
  IsBelow s r =
      (x : T) × (r < c.cluster_size)
      × (find r s.mds_meta_load ≡ some (cfg.narrow x))
      × (l.lt x s.target_load ≡ true)

  abbrev pub Takes : Prep T → ℕ → Type 0
  Takes s r = IsBelow s r ⊎ IsSource r

  IsSource-All : All IsSource (c.import_map c.whoami)
  IsSource-All = All-is_in (c.import_map c.whoami)

  abbrev Outcome : Prep T → Bool → Type 0
  Outcome s reached =
      reached ≡ true
      → Fair l cfg finite c (Takes s) s.my_targets
        × ((is_under l cfg s || is_early l cfg s) ≡ false)

  module _ (mode : IsMode l cfg) where
    prepare_lem :
        (beat : ℕ) (s : Prep T)
        → (s' : Prep T) × (reached : Bool) × (prepare l cfg false c beat s ≡ some (s', reached))
          × Outcome s' reached
    unfolding prepare
    prepare_lem beat s =
        let (t, loads, found, known, none_left) = cluster_loads_lem l cfg mode c s in
        let over : Prep T = record t { last_epoch_over = t.beat_epoch } in
        elim (Bool-cases (is_under l cfg t)) [
          | inl under ↦ (
            record t { last_epoch_under = t.beat_epoch },
            false,
            rw (found, under) refl,
            λ h. absurd (ground (arith, h)),
          )
          | inr loaded ↦ elim (Bool-cases (is_early l cfg t)) [
            | inl early ↦
                (over, false, rw (found, loaded, early) refl, λ h. absurd (ground (arith, h)))
            | inr late ↦
                let (u, done, fair, same) =
                  match_all_lem l cfg finite c (Takes over) beat loads over
                    (λ p.
                      (p.1 < c.cluster_size) × (find p.1 t.mds_meta_load ≡ some (cfg.narrow p.0)))
                    known (λ p k below. inl (p.0, k.0, k.1, below))
                    (All-mono IsSource (Takes over) (c.import_map c.whoami) (λ r h. inr h)
                      IsSource-All)
                    (rw none_left tt) in
                (
                  u,
                  true,
                  rw (found, loaded, late, done) refl,
                  λ h. (
                    subst (λ x. Fair l cfg finite c (Takes x) u.my_targets) (sym same) fair,
                    ap (λ x. is_under l cfg x || is_early l cfg x) same
                        ∙ ground (arith, loaded, late),
                  ),
                )
          ]
        ]

    thrash_lem :
        (beat : ℕ) (s : Prep T) (b : Bool)
        → b ≡ true
        → prepare l cfg b c beat s
          ≡ some (record s { my_targets = target_all l cfg c.up_mds [] }, true)
    unfolding prepare
    thrash_lem beat s b e =
        subst
          (λ x.
            prepare l cfg x c beat s
            ≡ some (record s { my_targets = target_all l cfg c.up_mds [] }, true))
          (sym e) refl

    module _ (rcfg : RebalanceConfig T) (by_sizes : rcfg.exporting.howmuch ≡ none) where
      -- A wanted target has what every target has.
      Wants-Takes :
          (s : Prep T) (r : ℕ) (m : Map T)
          → Fair l cfg finite c (Takes s) m
          → Wants l rcfg m r
          → Takes s r
      Wants-Takes s r [] h w = absurd w
      Wants-Takes s r ((j, x) ∷ m) h (inl w) = subst (Takes s) w.0 h.0.0
      Wants-Takes s r ((j, x) ∷ m) h (inr w) = Wants-Takes s r m h.1 w

      -- The export goes to a target that wants it and takes load, or gives an idle import back.
      abbrev pub IsFair : List (Root T) → Prep T → Export → Type 0
      IsFair roots s e =
          (Wants l rcfg s.my_targets e.1 × Takes s e.1) ⊎ GivesBack l rcfg c.whoami roots e

      Wants-IsFair :
          (roots : List (Root T)) (s : Prep T) (es : List Export)
          → Fair l cfg finite c (Takes s) s.my_targets
          → All (λ e. Wants l rcfg s.my_targets e.1 ⊎ GivesBack l rcfg c.whoami roots e) es
          → All (IsFair roots s) es
      Wants-IsFair roots s es h all =
          All-mono
            (λ (e : Export). Wants l rcfg s.my_targets e.1 ⊎ GivesBack l rcfg c.whoami roots e)
            (IsFair roots s) es
            (λ e w. elim w [ inl w ↦ inl (w, Wants-Takes s e.1 s.my_targets h w) | inr g ↦ inr g ])
            all

      module _ (fuel : ℕ) (map_targets : RankSet) (roots : List (Root T))
          (shallow : Shallow fuel (map (λ r. r.dir) roots)) where
        abbrev after : Prep T → List Export → Rebalanced l cfg
        after t es =
            let checked = check_targets rcfg.removal map_targets (targets l cfg t) in
            record {
              state = record t { old_prev_targets = checked.targets.old_prev_targets };
              sent = checked.sent;
              exports = es;
            }

        reached_lem :
            (beat : ℕ) (s t : Prep T)
            → prepare l cfg rcfg.thrash_exports c beat s ≡ some (t, true)
            → (es : List Export) × (prep_rebalance l cfg fuel rcfg c map_targets roots beat s
                ≡ some (after t es))
              × (rcfg.thrash_exports ≡ true → es ≡ [])
              × All (λ e. Wants l rcfg t.my_targets e.1 ⊎ GivesBack l rcfg c.whoami roots e) es
        unfolding prep_rebalance
        reached_lem beat s t prepared =
            let (es, done, nothing, to) =
              try_rebalance_lem l fuel rcfg by_sizes roots shallow c.whoami map_targets
                (targets l cfg t) in
            (es, rw (prepared, done) refl, λ thrash. nothing (ground (arith, thrash)), to)

        -- In a mode that the code knows, with loads that are numbers, without a script and with
        -- fuel for the depths of the subtrees, a rebalancing ends and no assertion fails. Each
        -- export goes to a rank that wants it and that is below the target load or was imported
        -- from, or gives an idle import back; and there is none if exports are random, or if this
        -- server is not overloaded, or was not in the epoch before.
        pub prep_rebalance_lem :
            (beat : ℕ) (s : Prep T)
            → (o : Rebalanced l cfg) × (prep_rebalance l cfg fuel rcfg c map_targets roots beat s
                ≡ some o)
              × All (IsFair roots o.state) o.exports
              × ((rcfg.thrash_exports || is_under l cfg o.state || is_early l cfg o.state) ≡ true
                  → o.exports ≡ [])
        unfolding prep_rebalance
        prep_rebalance_lem beat s = elim (Bool-cases rcfg.thrash_exports) [
          | inl thrash ↦
              let t : Prep T = record s { my_targets = target_all l cfg c.up_mds [] } in
              let (es, done, nothing, _) =
                reached_lem beat s t (thrash_lem beat s rcfg.thrash_exports thrash) in
              let empty : es ≡ [] = nothing thrash in
              (
                after t es,
                done,
                subst (All (IsFair roots (after t es).state)) (sym empty) tt,
                λ h. empty,
              )
          | inr calm ↦
              let (t, reached, prepared', fair) = prepare_lem beat s in
              let prepared : prepare l cfg rcfg.thrash_exports c beat s ≡ some (t, reached) =
                subst (λ b. prepare l cfg b c beat s ≡ some (t, reached)) (sym calm) prepared' in
              elim (Bool-cases reached) [
                | inr short ↦ (
                  record { state = t; sent = none; exports = [] },
                  rw (prepared, short) refl,
                  tt,
                  λ h. refl,
                )
                | inl through ↦
                    let (es, done, _, to) = reached_lem beat s t (
                      subst (λ b. prepare l cfg rcfg.thrash_exports c beat s ≡ some (t, b)) through
                        prepared) in
                    (
                      after t es,
                      done,
                      Wants-IsFair roots t es (fair through).0 to,
                      λ h. absurd (ground (arith, h, calm, (fair through).1)),
                    )
              ]
        ]
