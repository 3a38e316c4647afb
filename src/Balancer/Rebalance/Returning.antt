-- ===== src/Balancer/Rebalance/Returning.antt =====
-- mds/MDBalancer.cc, try_rebalance: imports that go back to where they came from.
use mds.Prelude.{
  ℕ, ◌≡◌, ◌⊎◌, inl, inr, refl, subst, sym, true, false, not, ◌||◌, some, List, [], ◌∷◌, arith, ◌==◌,
  All, All-mono, Bool-cases, Map,
}
use mds.Balancer.Load.{Load}
use mds.Balancer.Tree.{info}
use mds.Balancer.Rebalance.{
  Root, RebalanceConfig, Export, pop_of, is_idle, list_imports, Returned, return_imports,
}

module _ {T : Type 0} (l : Load T) (cfg : RebalanceConfig T) where
  -- The rank is a target that wants at least the least load.
  abbrev pub Wants : Map T → ℕ → Type 0
  Wants [] rank = ⊥
  Wants ((t, amount) ∷ ts) rank =
      ((t ≡ rank) × (l.lt amount cfg.minoffload ≡ false)) ⊎ Wants ts rank

  -- The export gives an idle import back to where it came from.
  abbrev pub GivesBack : (whoami : ℕ) → List (Root T) → Export → Type 0
  GivesBack whoami [] e = ⊥
  GivesBack whoami (r ∷ rs) e =
      (((info r.dir).id ≡ e.0)
        × (r.from ≡ e.1)
        × (is_idle l cfg whoami r ≡ true)
        × (r.is_stray ≡ false))
      ⊎ GivesBack whoami rs e

  abbrev pub Keyed : List (ℕ × Root T) → Type 0
  Keyed imports = All (λ i. i.0 ≡ i.1.from) imports

  pub list_imports_lem :
      (whoami : ℕ) (rs : List (Root T))
      → Keyed (list_imports l cfg whoami rs).0
        × All (GivesBack whoami rs) (list_imports l cfg whoami rs).1
  unfolding list_imports
  list_imports_lem whoami [] = (tt, tt)
  list_imports_lem whoami (r ∷ rs) =
      let (keyed, given) = list_imports_lem whoami rs in
      let rest = list_imports l cfg whoami rs in
      let later =
        All-mono (GivesBack whoami rs) (GivesBack whoami (r ∷ rs)) rest.1 (λ e h. inr h) given in
      let Sorts : List (ℕ × Root T) × List Export → Type 0 =
        λ o. Keyed o.0 × All (GivesBack whoami (r ∷ rs)) o.1 in
      elim (Bool-cases r.is_stray) [
        | inl stray ↦
            let same : list_imports l cfg whoami (r ∷ rs) ≡ rest = ground (arith, stray) in
            subst Sorts (sym same) (keyed, later)
        | inr plain ↦ elim (Bool-cases (is_idle l cfg whoami r)) [
          | inl idle ↦
              let same : list_imports l cfg whoami (r ∷ rs)
                  ≡ (rest.0, ((info r.dir).id, r.from) ∷ rest.1) =
                ground (arith, plain, idle) in
              subst Sorts (sym same) (keyed, (inl (refl, refl, idle, plain), later))
          | inr busy ↦
              let same : list_imports l cfg whoami (r ∷ rs) ≡ ((r.from, r) ∷ rest.0, rest.1) =
                ground (arith, plain, busy) in
              subst Sorts (sym same) ((refl, keyed), later)
        ]
      ]

  -- Only what goes to the target is given, and the rest stays listed.
  pub return_imports_lem :
      (target : ℕ) (amount : T) (is : List (ℕ × Root T)) (have : T)
      → Keyed is
      → (o : Returned l) × (return_imports l cfg.minoffload target amount is have ≡ some o)
        × Keyed o.imports
        × All (λ e. e.1 ≡ target) o.exported
  unfolding return_imports
  return_imports_lem target amount [] have h =
      (record { imports = []; have = have; exported = [] }, refl, tt, tt)
  return_imports_lem target amount ((from, r) ∷ is) have h =
      let skips =
        not (from == target)
        || r.is_base
        || r.is_stray
        || r.is_freezing
        || (info r.dir).is_frozen in
      let fits = l.le (pop_of l r) (l.minus amount have) in
      let now = l.plus have (pop_of l r) in
      elim (Bool-cases skips) [
        | inl skip ↦
            let (o, done, keyed, sent) = return_imports_lem target amount is have h.1 in
            (
              record o { imports = (from, r) ∷ o.imports },
              ground (arith, skip, done),
              (h.0, keyed),
              sent,
            )
        | inr keep ↦
            let home : (r.from == target) ≡ true = ground (arith, h.0, keep) in
            elim (Bool-cases fits) [
              | inl yes_fits ↦ elim (Bool-cases (l.lt (l.minus amount now) cfg.minoffload)) [
                | inl enough ↦ (
                  record { imports = is; have = now; exported = ((info r.dir).id, target) ∷ [] },
                  ground (arith, keep, home, yes_fits, enough),
                  h.1,
                  (refl, tt),
                )
                | inr less ↦
                    let (o, done, keyed, sent) = return_imports_lem target amount is now h.1 in
                    (
                      record o { exported = ((info r.dir).id, target) ∷ o.exported },
                      ground (arith, keep, home, yes_fits, less, done),
                      keyed,
                      (refl, sent),
                    )
              ]
              | inr too_big ↦ elim (Bool-cases (l.lt (l.minus amount have) cfg.minoffload)) [
                | inl enough ↦ (
                  record { imports = (from, r) ∷ is; have = have; exported = [] },
                  ground (arith, keep, home, too_big, enough),
                  h,
                  tt,
                )
                | inr less ↦
                    let (o, done, keyed, sent) = return_imports_lem target amount is have h.1 in
                    (
                      record o { imports = (from, r) ∷ o.imports },
                      ground (arith, keep, home, too_big, less, done),
                      (h.0, keyed),
                      sent,
                    )
              ]
            ]
      ]
