-- ===== src/Balancer/Rebalance/Ends.antt =====
-- mds/MDBalancer.cc, try_rebalance: it ends, and exports only where it should.
use mathlib.Core.List.{reverse}
use mds.Prelude.{
  ℕ, ◌≡◌, ◌⊎◌, inl, inr, refl, subst, sym, false, not, ◌&&◌, ◌||◌, none, some, List, [], ◌∷◌, ◌++◌,
  map, arith, All, All-append, All-mono, Bool-cases, Map,
}
use mds.Balancer.Load.{Load}
use mds.Balancer.Tree.{Frag, info, Shallow}
use mds.Balancer.Targets.{RankSet, Targets, check_targets}
use mds.Balancer.Exports.{Choice, is_in}
use mds.Balancer.Exports.Searching.{find_exports_lem}
use mds.Balancer.Rebalance.{
  Root, RebalanceConfig, Export, list_imports, small_roots, send_biggest, send_whole, drill_roots,
  choose_exports, send_targets, try_rebalance,
}
use mds.Balancer.Rebalance.Returning.{Wants, GivesBack, list_imports_lem, return_imports_lem}

module _ {T : Type 0} (l : Load T) (fuel : ℕ) (cfg : RebalanceConfig T)
    (by_sizes : cfg.exporting.howmuch ≡ none) where
  drill_roots_lem :
      (amount enough : T) (rs : List (Root T)) (c : Choice T)
      → Shallow fuel (map (λ r. r.dir) rs)
      → (c' : Choice T) × (drill_roots l fuel cfg.exporting amount enough rs c ≡ some c')
  unfolding drill_roots
  drill_roots_lem amount enough [] c h = (c, refl)
  drill_roots_lem amount enough (r ∷ rs) c h =
      let i = (info r.dir).id in
      elim (Bool-cases (is_in i c.already)) [
        | inl old ↦
            let (c', done) = drill_roots_lem amount enough rs c h.1 in (c', rw (old, done) refl)
        | inr new ↦ elim (Bool-cases (is_in i (map (λ f. (info f).id) c.exports))) [
          | inl sent ↦ elim (Bool-cases (l.lt enough c.have)) [
            | inl stop ↦ (c, rw (new, sent, stop) refl)
            | inr go ↦
                let (c', done) = drill_roots_lem amount enough rs c h.1 in
                (c', rw (new, sent, go, done) refl)
          ]
          | inr unsent ↦
              let (d, found, _) =
                find_exports_lem l cfg.exporting amount by_sizes fuel r.dir c h.0 in
              elim (Bool-cases (l.lt enough d.have)) [
                | inl stop ↦ (d, rw (new, unsent, found, stop) refl)
                | inr go ↦
                    let (c', done) = drill_roots_lem amount enough rs d h.1 in
                    (c', rw (new, unsent, found, go, done) refl)
              ]
        ]
      ]

  module _ (roots : List (Root T)) (shallow : Shallow fuel (map (λ r. r.dir) roots)) where
    send_whole_lem :
        (amount enough : T) (fs : List (Frag T)) (c : Choice T)
        → send_whole l none amount enough fs c ≡ some (send_biggest l enough fs c)
    unfolding send_whole send_biggest
    send_whole_lem amount enough fs c = refl

    choose_exports_lem :
        (amount have : T) (already : List ℕ)
        → (c : Choice T) × (choose_exports l fuel cfg amount have already roots ≡ some c)
    unfolding choose_exports
    choose_exports_lem amount have already =
        let enough = l.minus amount cfg.minoffload in
        let fs = reverse (small_roots l amount have already roots []) in
        let c : Choice T =
          send_biggest l enough fs (record { exports = []; have = have; already = already }) in
        let start : Choice T = record { exports = []; have = have; already = already } in
        let whole : send_whole l cfg.exporting.howmuch amount enough fs start ≡ some c =
          subst (λ h. send_whole l h amount enough fs start ≡ some c) (sym by_sizes)
            (send_whole_lem amount enough fs start) in
        elim (Bool-cases (l.lt c.have enough)) [
          | inl short ↦
              let (c', done) = drill_roots_lem amount enough roots c shallow in
              (c', rw (whole, short, done) refl)
          | inr full ↦ (c, rw (whole, full) refl)
        ]

    sent_to :
        (ts : Map T) (target : ℕ) (fs : List (Frag T))
        → Wants l cfg ts target
        → All (λ (e : Export). Wants l cfg ts e.1) (map (λ f. ((info f).id, target)) fs)
    sent_to ts target [] w = tt
    sent_to ts target (f ∷ fs) w = (w, sent_to ts target fs w)

    send_targets_lem :
        (ts : Map T) (imports : List (ℕ × Root T)) (already : List ℕ)
        → All (λ i. i.0 ≡ i.1.from) imports
        → (es : List Export) × (send_targets l fuel cfg roots ts imports already ≡ some es)
          × All (λ e. Wants l cfg ts e.1) es
    unfolding send_targets
    send_targets_lem [] imports already keyed = ([], refl, tt)
    send_targets_lem ((target, amount) ∷ ts) imports already keyed =
        elim (Bool-cases (l.lt amount cfg.minoffload)) [
          | inl little ↦
              let (es, done, to) = send_targets_lem ts imports already keyed in
              (
                es,
                rw (little, done) refl,
                All-mono (λ e. Wants l cfg ts e.1) (λ e. Wants l cfg ((target, amount) ∷ ts) e.1) es
                    (λ e w. inr w) to,
              )
          | inr enough ↦
              let (o, back, keyed', home) =
                return_imports_lem l cfg target amount imports l.zero keyed in
              let given =
                All-mono (λ e. e.1 ≡ target) (λ e. Wants l cfg ((target, amount) ∷ ts) e.1)
                  o.exported (λ e h. inl (sym h, enough)) home in
              elim (Bool-cases (l.lt (l.minus amount o.have) cfg.minoffload)) [
                | inl content ↦
                    let (es, done, to) = send_targets_lem ts o.imports already keyed' in
                    (
                      o.exported ++ es,
                      rw (enough, back, content, done) refl,
                      All-append (λ e. Wants l cfg ((target, amount) ∷ ts) e.1) o.exported es given
                          (All-mono (λ e. Wants l cfg ts e.1)
                            (λ e. Wants l cfg ((target, amount) ∷ ts) e.1) es (λ e w. inr w) to),
                    )
                | inr wanting ↦
                    let (c, chosen) = choose_exports_lem amount o.have already in
                    let (es, done, to) = send_targets_lem ts o.imports c.already keyed' in
                    let later =
                      All-mono (λ e. Wants l cfg ts e.1)
                        (λ e. Wants l cfg ((target, amount) ∷ ts) e.1) es (λ e w. inr w) to in
                    (
                      o.exported ++ (map (λ f. ((info f).id, target)) c.exports ++ es),
                      rw (enough, back, wanting, chosen, done) refl,
                      All-append (λ e. Wants l cfg ((target, amount) ∷ ts) e.1) o.exported _ given
                          (All-append (λ e. Wants l cfg ((target, amount) ∷ ts) e.1)
                            (map (λ f. ((info f).id, target)) c.exports) es
                            (sent_to ((target, amount) ∷ ts) target c.exports (inl (refl, enough)))
                            later),
                    )
              ]
        ]

    -- Without a script, and with fuel for the depths of the subtrees, the search for exports ends
    -- and no assertion fails. Nothing is exported unless the monitors know every target; then each
    -- export goes to a target that wants at least the least load, or gives an idle import back.
    pub try_rebalance_lem :
        (whoami : ℕ) (map_targets : RankSet) (b : Targets T)
        → (es : List Export) × (try_rebalance l fuel cfg whoami map_targets roots b
            ≡ some (check_targets cfg.removal map_targets b, es))
          × (((check_targets cfg.removal map_targets b).ok && not cfg.thrash_exports) ≡ false
              → es ≡ [])
          × All (λ e. Wants l cfg b.my_targets e.1 ⊎ GivesBack l cfg whoami roots e) es
    unfolding try_rebalance
    try_rebalance_lem whoami map_targets b =
        let checked = check_targets cfg.removal map_targets b in
        let (keyed, idle) = list_imports_lem l cfg whoami roots in
        let listed = list_imports l cfg whoami roots in
        let Fine : Export → Type 0 =
          λ e. Wants l cfg b.my_targets e.1 ⊎ GivesBack l cfg whoami roots e in
        elim (Bool-cases (not checked.ok || cfg.thrash_exports)) [
          | inl stop ↦ ([], rw stop refl, λ h. refl, tt)
          | inr go ↦
              let (es, done, to) = send_targets_lem b.my_targets listed.0 [] keyed in
              (
                listed.1 ++ es,
                rw (go, done) refl,
                λ h. absurd (ground (arith, go, h)),
                All-append Fine listed.1 es
                    (All-mono (GivesBack l cfg whoami roots) Fine listed.1 (λ e h. inr h) idle)
                    (All-mono (λ e. Wants l cfg b.my_targets e.1) Fine es (λ e h. inl h) to),
              )
        ]
