-- ===== src/Balancer/Exports/Searching.antt =====
-- mds/MDBalancer.cc, find_exports: a search by size ends, and chooses each fragment at most once
-- and none below another.
use mathlib.Core.List.{reverse}
use mds.Prelude.{
  ℕ, zero, suc, ◌+◌, ◌≤◌, ◌≡◌, inl, inr, refl, subst, sym, Bool, true, false, Option, none, some,
  List, [], ◌∷◌, arith, All, Bool-cases,
}
use mds.Balancer.Load.{Load}
use mds.Balancer.Tree.{
  Frag, frag, info, entries, subdirs, count_frag, count_entries, count_all, count_all-subdirs,
  depth_frag, Shallow-subdirs,
}
use mds.Balancer.Exports.{
  ExportConfig, Choice, Limits, Scan, take, limits, scan, scan_start, grab, drill, by_size,
  find_exports,
}
use mds.Balancer.Exports.Scanning.{Ok, Scanned, scan-Scanned}
use mds.Balancer.Exports.Choosing.{
  Later, Grew, Grew-refl, Grew-take, Grew-trans, Grew-mono, Grew-base, Grew-Later, All-reverse,
  count_all-reverse,
}

module _ {T : Type 0} (l : Load T) (d : ℕ) (base : Choice T) where
  -- What is promised of taking fragments from a list: what is taken and what is left stand in it.
  abbrev Grabs : List (Frag T) → Choice T → Bool × Choice T × List (Frag T) → Type 0
  Grabs fs c r =
      (b : ℕ → ℕ) × Grew l base b c r.1
      × ((n : ℕ) → b n + count_all n r.2 ≤ count_all n fs)
      × All (Ok d base) r.2

  grab_lem :
      (waits : Frag T → Bool) (needmin : T) (fs : List (Frag T)) (c : Choice T)
      → All (Ok d base) fs
      → Grabs fs c (grab l waits needmin fs c)
  unfolding grab
  grab_lem waits needmin [] c h = (λ _. 0, Grew-refl l base _ c, λ n. omega arith, tt)
  grab_lem waits needmin (f ∷ fs) c h =
      let taken = Grew-take l base (λ n. count_frag n f) f c h.0.0 (λ n. omega arith) in
      elim (Bool-cases (waits f)) [
        | inl w ↦ rw w (λ _. 0, Grew-refl l base _ c, λ n. omega arith, h)
        | inr go ↦ elim (Bool-cases (l.lt needmin (take l f c).have)) [
          | inl enough ↦ rw (go, enough) (λ n. count_frag n f, taken, λ n. omega arith, h.1)
          | inr less ↦
              let (b, g, few, ok) = grab_lem waits needmin fs (take l f c) h.1 in
              rw (go, less)
                (
                  λ n. count_frag n f + b n,
                  Grew-trans l base (λ n. count_frag n f) b _ c (take l f c) _ (λ n. omega arith)
                      taken g,
                  λ n. omega (arith, few n),
                  ok,
                )
        ]
      ]

  -- A search below a fragment of this depth, which succeeds and chooses below the fragment.
  abbrev Searches : (Frag T → Choice T → Option (Choice T)) → Type 0
  Searches search_in =
      (f : Frag T) (c : Choice T)
      → depth_frag f ≤ d
      → (c' : Choice T) × (search_in f c ≡ some c') × Grew l c (λ n. count_frag n f) c c'

  module _ (search_in : Frag T → Choice T → Option (Choice T)) (ok : Searches search_in) where
    drill_lem :
        (needmin : T) (fs : List (Frag T)) (c : Choice T)
        → All (Ok d base) fs
        → Later base c
        → (r : Bool × Choice T) × (drill l search_in needmin fs c ≡ some r)
          × Grew l base (λ n. count_all n fs) c r.1
    unfolding drill
    drill_lem needmin [] c h later = ((false, c), refl, Grew-refl l base _ c)
    drill_lem needmin (f ∷ fs) c h later =
        let (c', found, g) = ok f c h.0.1 in
        let g' = Grew-base l base c c' _ later g in
        elim (Bool-cases (l.lt needmin c'.have)) [
          | inl enough ↦
              ((true, c'), rw (found, enough) refl, Grew-mono l base _ _ c c' (λ n. omega arith) g')
          | inr less ↦
              let later' : Later base c' = λ n h. later n (Grew-Later l c _ c c' g n h) in
              let (r, rest, g'') = drill_lem needmin fs c' h.1 later' in
              (
                r,
                rw (found, less, rest) refl,
                Grew-trans l base (λ n. count_frag n f) (λ n. count_all n fs) _ c c' r.1
                    (λ n. omega arith) g' g'',
              )
        ]

    module _ (m : Limits T) (s : Scan T) where
      abbrev first : Bool × Choice T × List (Frag T)
      first = grab l (λ f. l.lt (info f).pop m.midchunk) m.needmin (reverse s.smaller) s.choice

      abbrev second : Choice T → Bool × Choice T × List (Frag T)
      second c = grab l (λ _. false) m.needmin first.2 c

      by_size_lem :
          (bound : ℕ → ℕ)
          → Scanned l d base bound s
          → Later base s.choice
          → (c' : Choice T) × (by_size l search_in m s ≡ some c') × Grew l base bound s.choice c'
      unfolding by_size
      by_size_lem bound v later =
          let (b₁, g₁, few₁, ok₁) =
            grab_lem (λ f. l.lt (info f).pop m.midchunk) m.needmin (reverse s.smaller) s.choice
              (All-reverse (Ok d base) s.smaller v.smaller) in
          let room : (n : ℕ)
              → b₁ n + count_all n first.2 + count_all n s.bigger_rep + count_all n s.bigger_unrep
                ≤ bound n =
            λ n. omega (arith, few₁ n, v.counts n, count_all-reverse n s.smaller) in
          elim (Bool-cases first.0) [
            | inl found ↦
                (first.1, rw found refl, Grew-mono l base _ _ _ _ (λ n. omega (arith, room n)) g₁)
            | inr not_found ↦
                let later₁ : Later base first.1 =
                  λ n h. later n (Grew-Later l base b₁ s.choice first.1 g₁ n h) in
                let (q, drilled, g₂) =
                  drill_lem m.needmin s.bigger_unrep first.1 v.bigger_unrep later₁ in
                let g₁₂ =
                  Grew-trans l base b₁ (λ n. count_all n s.bigger_unrep)
                    (λ n. b₁ n + count_all n s.bigger_unrep) _ _ _ (λ n. omega arith) g₁ g₂ in
                elim (Bool-cases q.0) [
                  | inl found ↦ (
                    q.1,
                    rw (not_found, drilled, found) refl,
                    Grew-mono l base _ _ _ _ (λ n. omega (arith, room n)) g₁₂,
                  )
                  | inr not_yet ↦
                      let (b₃, g₃, few₃, _) = grab_lem (λ _. false) m.needmin first.2 q.1 ok₁ in
                      let g₁₃ =
                        Grew-trans l base _ b₃
                          (λ n. b₁ n + count_all n s.bigger_unrep + count_all n first.2) _ _ _
                          (λ n. omega (arith, few₃ n)) g₁₂ g₃ in
                      elim (Bool-cases (second q.1).0) [
                        | inl found ↦ (
                          (second q.1).1,
                          rw (not_found, drilled, not_yet, found) refl,
                          Grew-mono l base _ _ _ _ (λ n. omega (arith, room n)) g₁₃,
                        )
                        | inr never ↦
                            let later₃ : Later base (second q.1).1 = λ n h.
                              later n (Grew-Later l base _ s.choice (second q.1).1 g₁₃ n h) in
                            let (e, last, g₄) =
                              drill_lem m.needmin s.bigger_rep (second q.1).1 v.bigger_rep later₃ in
                            (
                              e.1,
                              rw (not_found, drilled, not_yet, never, last) refl,
                              Grew-trans l base _ (λ n. count_all n s.bigger_rep) _ _ _ _
                                  (λ n. omega (arith, room n)) g₁₃ g₄,
                            )
                      ]
                ]
          ]

count_entries-le : {T : Type 0} (n : ℕ) (g : Frag T) → count_entries n (entries g) ≤ count_frag n g
unfolding count_frag
count_entries-le n (frag i es) = omega arith

module _ {T : Type 0} (l : Load T) (cfg : ExportConfig T) (amount : T)
    (by_sizes : cfg.howmuch ≡ none) where
  -- Without a script, and with fuel for the depth of the tree, a search ends. What it chooses was
  -- authoritative, not frozen and not being exported; the load that is had and the set of exports
  -- grow by just what is chosen; and no number is in the trees of all that is chosen more often
  -- than below the fragment, so that, with every fragment numbered once, nothing is chosen twice
  -- and nothing lies below another choice.
  pub find_exports_lem :
      (fuel : ℕ) (f : Frag T) (c : Choice T)
      → depth_frag f ≤ fuel
      → (c' : Choice T) × (find_exports l fuel cfg amount f c ≡ some c')
        × Grew l c (λ n. count_entries n (entries f)) c c'
  unfolding find_exports depth_frag
  find_exports_lem zero (frag i es) c h = absurd (omega arith)
  find_exports_lem (suc fuel) (frag i es) c h =
      let need = l.minus amount c.have in
      let m = limits l cfg need in
      let below = subdirs es in
      let v = scan-Scanned l fuel c m below (Shallow-subdirs fuel es (omega arith)) in
      let s = scan l m below (scan_start l c) in
      let few : (n : ℕ) → count_all n below ≤ count_entries n es =
        λ n. omega (arith, count_all-subdirs n es) in
      let deeper : (g : Frag T) (e : Choice T)
          → depth_frag g ≤ fuel
          → (e' : Choice T) × (find_exports l fuel cfg amount g e ≡ some e')
            × Grew l e (λ n. count_frag n g) e e' =
        λ g e k.
          let (e', found, grew) = find_exports_lem fuel g e k in
          (e', found, Grew-mono l e _ _ e e' (λ n. count_entries-le n g) grew) in
      elim (Bool-cases (l.lt need (l.times amount cfg.min_start))) [
        | inl enough ↦ (c, rw enough refl, Grew-refl l c _ c)
        | inr wanting ↦ elim (Bool-cases s.lucky) [
          | inl lucky ↦ (
            s.choice,
            rw (wanting, lucky) refl,
            elim v.state [
              | inl idle ↦ absurd (ground (arith, lucky, idle.0))
              | inr (_, g, taken, fit, few') ↦
                  subst (Grew l c (λ n. count_entries n es) c) (sym taken) (
                    Grew-take l c (λ n. count_entries n es) g c fit
                      (λ n. omega (arith, few' n, few n)))
            ],
          )
          | inr unlucky ↦
              let start : s.choice ≡ c = elim v.state [
                | inl idle ↦ idle.1
                | inr found ↦ absurd (ground (arith, unlucky, found.0))
              ] in
              let (c', done, grew) =
                by_size_lem l fuel c (find_exports l fuel cfg amount) deeper m s _ v
                  (λ n k. rw start at k) in
              (
                c',
                rw (wanting, unlucky, by_sizes) done,
                Grew-mono l c _ _ c c' few
                    (subst (λ x. Grew l c (λ n. count_all n below) x c') start grew),
              )
        ]
      ]
