-- ===== src/Balancer/Rebalance/Twice.antt =====
-- mds/MDBalancer.cc, try_rebalance: a subtree that is sent whole is not kept from being sent again.
use mds.Prelude.{
  ℕ, ◌≡◌, refl, subst, sym, true, false, none, some, [], ◌∷◌, arith, ◌==◌, ◌>>=◌, Map,
}
use mds.Balancer.Load.{Load}
use mds.Balancer.Tree.{info}
use mds.Balancer.Targets.{RankSet, Targets, check_targets}
use mds.Balancer.Exports.{Choice, insert_pop}
use mds.Balancer.Rebalance.{
  Root, RebalanceConfig, pop_of, is_idle, list_imports, return_imports, small_roots, send_biggest,
  send_whole, choose_exports, send_targets, try_rebalance,
}

-- Nothing keeps the subtree from being exported.
abbrev pub Exportable : {T : Type 0} → Root T → Type 0
Exportable r =
    (r.is_stray ≡ false)
    × (r.in_private ≡ false)
    × ((info r.dir).is_auth ≡ true)
    × ((info r.dir).is_frozen ≡ false)

-- The target wants a load that the subtree fits, and is content with it.
abbrev pub Suits : {T : Type 0} → Load T → RebalanceConfig T → Root T → ℕ → T → Type 0
Suits l cfg r target amount =
    (l.lt amount cfg.minoffload ≡ false)
    × (l.lt (l.minus amount l.zero) cfg.minoffload ≡ false)
    × (l.lt (pop_of l r) (l.minus amount l.zero) ≡ true)
    × (l.lt (l.plus l.zero (pop_of l r)) (l.minus amount cfg.minoffload) ≡ false)
    × ((r.from == target) ≡ false)

module _ {T : Type 0} (l : Load T) (fuel : ℕ) (cfg : RebalanceConfig T) (r : Root T)
    (by_sizes : cfg.exporting.howmuch ≡ none) (e : Exportable r) where
  returns_nothing :
      (target : ℕ) (amount : T)
      → (r.from == target) ≡ false
      → return_imports l cfg.minoffload target amount ((r.from, r) ∷ []) l.zero
        ≡ some (record { imports = (r.from, r) ∷ []; have = l.zero; exported = [] })
  unfolding return_imports
  returns_nothing target amount other = rw other refl

  is_small :
      (amount : T)
      → l.lt (pop_of l r) (l.minus amount l.zero) ≡ true
      → small_roots l amount l.zero [] (r ∷ []) [] ≡ r.dir ∷ []
  unfolding small_roots insert_pop
  is_small amount fits = ground (arith, e, fits)

  chooses_it :
      (target : ℕ) (amount : T)
      → Suits l cfg r target amount
      → choose_exports l fuel cfg amount l.zero [] (r ∷ [])
        ≡ some (record { exports = r.dir ∷ []; have = l.plus l.zero (pop_of l r); already = [] })
  unfolding choose_exports send_whole send_biggest
  chooses_it target amount (_, _, fits, content, _) =
      let start : Choice T = record { exports = []; have = l.zero; already = [] } in
      let enough = l.minus amount cfg.minoffload in
      let one : Choice T = record {
        exports = r.dir ∷ [];
        have = l.plus l.zero (pop_of l r);
        already = [];
      } in
      let sends : some (send_biggest l enough (r.dir ∷ []) start) ≡ some one = ground arith in
      let whole : send_whole l cfg.exporting.howmuch amount enough (r.dir ∷ []) start ≡ some one =
        subst (λ h. send_whole l h amount enough (r.dir ∷ []) start ≡ some one) (sym by_sizes)
          sends in
      rw (is_small amount fits, whole, content) refl

  -- The subtree goes to a target that it suits, and is not noted as being exported.
  one_target :
      (target : ℕ) (amount : T) (ts : Map T)
      → Suits l cfg r target amount
      → send_targets l fuel cfg (r ∷ []) ((target, amount) ∷ ts) ((r.from, r) ∷ []) [] ≡ (
          send_targets l fuel cfg (r ∷ []) ts ((r.from, r) ∷ []) [] >>= λ es.
          some (((info r.dir).id, target) ∷ es))
  unfolding send_targets
  one_target target amount ts s =
      rw (s.0, returns_nothing target amount s.4, s.1, chooses_it target amount s) refl

  -- A server has one subtree, which can be exported and is not idle, and exactly two export
  -- targets, known to the monitors and neither the one that the subtree was imported from. Without
  -- a script and without the debugging switch for random exports, the subtree is exported to both
  -- targets if it is below the load that each wants and is not less than what contents each: the
  -- first export does not keep it from the second.
  pub exported_twice :
      (whoami : ℕ) (map_targets : RankSet) (b : Targets T) (t₁ t₂ : ℕ) (a₁ a₂ : T)
      → b.my_targets ≡ (t₁, a₁) ∷ (t₂, a₂) ∷ []
      → (check_targets cfg.removal map_targets b).ok ≡ true
      → cfg.thrash_exports ≡ false
      → is_idle l cfg whoami r ≡ false
      → Suits l cfg r t₁ a₁
      → Suits l cfg r t₂ a₂
      → try_rebalance l fuel cfg whoami map_targets (r ∷ []) b
        ≡ some (
          check_targets cfg.removal map_targets b,
          ((info r.dir).id, t₁) ∷ ((info r.dir).id, t₂) ∷ [],
        )
  unfolding try_rebalance list_imports send_targets
  exported_twice whoami map_targets b t₁ t₂ a₁ a₂ ts known calm busy s₁ s₂ =
      let two : send_targets l fuel cfg (r ∷ []) b.my_targets ((r.from, r) ∷ []) []
          ≡ some (((info r.dir).id, t₁) ∷ ((info r.dir).id, t₂) ∷ []) =
        rw (ts, one_target t₁ a₁ ((t₂, a₂) ∷ []) s₁, one_target t₂ a₂ [] s₂) refl in
      let listed : list_imports l cfg whoami (r ∷ []) ≡ ((r.from, r) ∷ [], []) =
        ground (arith, e.0, busy) in
      rw (listed, known, calm, two) refl
