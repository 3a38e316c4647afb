-- ===== src/Balancer/Matching/Rescaling.antt =====
-- mds/MDBalancer.cc, prep_rebalance: the loads of the ranks, and who is an importer.
use mds.Prelude.{
  ℕ, zero, suc, ◌+◌, ◌<◌, ◌≡◌, inl, inr, refl, sym, subst, Bool, true, some, [], ◌∷◌, arith, ◌==◌,
  if◌then◌else◌, All, All-mono, Map, find, put, find-put, Bool-cases, Option-cases,
}
use mds.Balancer.Load.{Load}
use mds.Balancer.Matching.{
  MatchConfig, MdsLoad, Cluster, Prep, Loads, mds_load, load_factor, load_of, insert_load, rescale,
  separate, cluster_loads,
}

module _ {T : Type 0} (l : Load T) where
  pub All-insert_load :
      (P : T × ℕ → Type 0) (p : T × ℕ) (ps : Loads T) → P p → All P ps → All P (insert_load l p ps)
  unfolding insert_load
  All-insert_load P p [] h hs = (h, tt)
  All-insert_load P p (q ∷ qs) h hs = elim (Bool-cases (l.lt p.0 q.0)) [
    | inl e ↦ rw e (h, hs)
    | inr e ↦ rw e (hs.0, All-insert_load P p qs h hs.1)
  ]

  module _ (cfg : MatchConfig T) where
    -- Importers keep what holds of all, and are below the target load.
    pub separate_lem :
        (P : T × ℕ → Type 0) (target_load : T) (ps importers exporters : Loads T)
        → All P ps
        → All (λ p. P p × (l.lt p.0 target_load ≡ true)) importers
        → All
            (λ p. P p × (l.lt p.0 target_load ≡ true))
            (separate l cfg target_load ps importers exporters).0
    unfolding separate
    separate_lem P target_load [] importers exporters hs is = is
    separate_lem P target_load (p ∷ ps) importers exporters hs is =
        let Kept : Loads T → Type 0 = λ qs. All (λ q. P q × (l.lt q.0 target_load ≡ true)) qs in
        let next = λ (b : Bool).
          separate l cfg target_load ps (if b then insert_load l p importers else importers)
            (if b then exporters else insert_load l p exporters) in
        elim (Bool-cases (l.lt p.0 target_load)) [
          | inl below ↦
              subst (λ b. Kept (next b).0) (sym below)
                (separate_lem P target_load ps (insert_load l p importers) exporters hs.1 (
                  All-insert_load (λ q. P q × (l.lt q.0 target_load ≡ true)) p importers
                    (hs.0, below) is))
          | inr above ↦
              subst (λ b. Kept (next b).0) (sym above)
                (separate_lem P target_load ps importers (insert_load l p exporters) hs.1 is)
        ]

    -- The mode is one of the three that the code knows.
    abbrev pub IsMode : Type 0
    IsMode = cfg.mode < 3

    -- Each load of the map is that of its rank, which is below the bound.
    abbrev pub Known : ℕ → Prep T → Loads T → Type 0
    Known n s loads =
        All (λ p. (p.1 < n) × (find p.1 s.mds_meta_load ≡ some (cfg.narrow p.0))) loads

    module _ (mode : IsMode) where
      mds_load_lem : (m : MdsLoad T) → (x : T) × (mds_load l cfg m ≡ some x)
      unfolding mds_load
      mds_load_lem m = elim (Option-cases (mds_load l cfg m)) [
        | inl e ↦ absurd (ground (arith, mode, e))
        | inr found ↦ found
      ]

      load_factor_lem :
          (whoami : ℕ) (loads : Map (MdsLoad T))
          → (x : T) × (load_factor l cfg whoami loads ≡ some x)
      unfolding load_factor
      load_factor_lem whoami loads = elim (Option-cases (find whoami loads)) [
        | inl e ↦ (cfg.one, rw (load_factor, e) refl)
        | inr (m, e) ↦
            let (x, done) = mds_load_lem m in
            (
              if l.lt l.zero x then cfg.divide m.auth_now x else cfg.one,
              rw (load_factor, e, done) refl,
            )
      ]

      rescale_lem :
          (c : Cluster T) (load_fac : T) (left i : ℕ) (s : Prep T) (total : T) (loads : Loads T)
          → Known i s loads
          → (s' : Prep T) × (total' : T) × (loads' : Loads T) × (rescale l cfg c load_fac left i s
                total loads
              ≡ some (s', total', loads'))
            × Known (i + left) s' loads'
            × (s'.my_targets ≡ s.my_targets)
      unfolding rescale
      rescale_lem c load_fac zero i s total loads h =
          (s, total, loads, refl, subst (λ n. Known n s loads) (omega arith) h, refl)
      rescale_lem c load_fac (suc left) i s total loads h =
          let load = load_of l cfg c.fresh s.mds_load i in
          let (x, done) = mds_load_lem load in
          let y = l.times x load_fac in
          let t : Prep T = record s {
            mds_load = put i load s.mds_load;
            mds_meta_load = put i (cfg.narrow y) s.mds_meta_load;
            my_load = if c.whoami == i then y else s.my_load;
          } in
          let kept =
            All-mono (λ (p : T × ℕ). (p.1 < i) × (find p.1 s.mds_meta_load ≡ some (cfg.narrow p.0)))
              (λ p. (p.1 < suc i) × (find p.1 t.mds_meta_load ≡ some (cfg.narrow p.0))) loads
              (λ p k. (
                omega (arith, k.0),
                ground (arith, k, find-put i p.1 (cfg.narrow y) s.mds_meta_load),
              ))
              h in
          let known =
            All-insert_load
              (λ p. (p.1 < suc i) × (find p.1 t.mds_meta_load ≡ some (cfg.narrow p.0))) (y, i) loads
              (omega arith, ground (arith, find-put i i (cfg.narrow y) s.mds_meta_load)) kept in
          let (s', total', loads', all, k, same) =
            rescale_lem c load_fac left (suc i) t (l.plus total y) (insert_load l (y, i) loads)
              known in
          (
            s',
            total',
            loads',
            rw (done, all) refl,
            subst (λ n. Known n s' loads') (omega arith) k,
            same,
          )

      -- The loads are found, each is that of a rank of the cluster, and no target is left.
      pub cluster_loads_lem :
          (c : Cluster T) (s : Prep T)
          → (s' : Prep T) × (loads : Loads T) × (cluster_loads l cfg c s ≡ some (s', loads))
            × Known c.cluster_size s' loads
            × (s'.my_targets ≡ [])
      unfolding cluster_loads
      cluster_loads_lem c s =
          let s₁ : Prep T = record s { my_targets = []; imported = []; exported = [] } in
          let (load_fac, found) = load_factor_lem c.whoami s.mds_load in
          let (s₂, total, loads, all, known, none_left) =
            rescale_lem c load_fac c.cluster_size 0 s₁ l.zero [] tt in
          (
            record s₂ { target_load = cfg.divide total (cfg.from_nat c.cluster_size) },
            loads,
            rw (found, all) refl,
            subst (λ n. Known n s₂ loads) (omega arith) known,
            none_left,
          )
