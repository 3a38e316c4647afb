-- ===== src/Balancer/Exports/Scanning.antt =====
-- mds/MDBalancer.cc, find_exports: the loop over the fragments below.
use mds.Prelude.{
  ℕ, ◌+◌, ◌≤◌, ◌≡◌, ◌⊎◌, inl, inr, refl, Bool, true, false, not, ◌&&◌, ◌||◌, List, [], ◌∷◌, arith,
  All, All-append, Bool-cases,
}
use mds.Balancer.Load.{Load}
use mds.Balancer.Tree.{Frag, info, count_frag, count_all, count_all-append, depth_frag, Shallow}
use mds.Balancer.Exports.{Choice, Limits, Scan, is_in, take, insert_pop, look, scan, scan_start}

module _ {T : Type 0} where
  -- What a fragment has to be to be exported.
  abbrev pub Fits : Choice T → Frag T → Type 0
  Fits c f =
      ((info f).is_auth ≡ true)
      × ((info f).is_frozen ≡ false)
      × (is_in (info f).id c.already ≡ false)

  abbrev pub Ok : ℕ → Choice T → Frag T → Type 0
  Ok d c f = Fits c f × (depth_frag f ≤ d)

  abbrev pub weight : ℕ → Scan T → ℕ
  weight n s = count_all n s.smaller + count_all n s.bigger_rep + count_all n s.bigger_unrep

module _ {T : Type 0} (l : Load T) where
  pub All-insert_pop :
      (P : Frag T → Type 0) (f : Frag T) (fs : List (Frag T))
      → P f
      → All P fs
      → All P (insert_pop l f fs)
  unfolding insert_pop
  All-insert_pop P f [] p h = (p, tt)
  All-insert_pop P f (g ∷ gs) p h = elim (Bool-cases (l.lt (info f).pop (info g).pop)) [
    | inl e ↦ rw e (p, h)
    | inr e ↦ rw e (h.0, All-insert_pop P f gs p h.1)
  ]

  pub count_all-insert_pop :
      (n : ℕ) (f : Frag T) (fs : List (Frag T))
      → count_all n (insert_pop l f fs) ≡ count_frag n f + count_all n fs
  unfolding insert_pop
  count_all-insert_pop n f [] = refl
  count_all-insert_pop n f (g ∷ gs) = ground (arith, count_all-insert_pop n f gs)

  -- What holds of a scan that began with the choice `c` and has seen fragments with these counts.
  pub record Scanned (d : ℕ) (c : Choice T) (bound : ℕ → ℕ) (s : Scan T) : Type 0 where
    pub smaller : All (Ok d c) s.smaller
    pub bigger_rep : All (Ok d c) s.bigger_rep
    pub bigger_unrep : All (Ok d c) s.bigger_unrep
    pub counts : (n : ℕ) → weight n s ≤ bound n
    pub state :
        ((s.lucky ≡ false) × (s.choice ≡ c))
        ⊎ ((s.lucky ≡ true)
            × (f : Frag T) × (s.choice ≡ take l f c)
            × Fits c f
            × ((n : ℕ) → count_frag n f ≤ bound n))

  module _ (m : Limits T) (d : ℕ) (c : Choice T) (bound : ℕ → ℕ) (f : Frag T) (s : Scan T) where
    abbrev skips : Bool
    skips =
        not (info f).is_auth
        || is_in (info f).id s.choice.already
        || (info f).is_frozen
        || l.lt (info f).pop m.minchunk

    fits : s.choice ≡ c → skips ≡ false → Fits c f
    fits e h = rw (← e) (ground (arith, h), ground (arith, h), ground (arith, h))

    look-Scanned :
        Scanned d c bound s
        → s.lucky ≡ false
        → s.choice ≡ c
        → depth_frag f ≤ d
        → Scanned d c (λ n. bound n + count_frag n f) (look l m f s)
    unfolding look
    look-Scanned v idle e shallow = elim (Bool-cases skips) [
      | inl skip ↦ rw skip (record {
        smaller = v.smaller;
        bigger_rep = v.bigger_rep;
        bigger_unrep = v.bigger_unrep;
        counts = λ n. omega (arith, v.counts n);
        state = inl (idle, e);
      })
      | inr keep ↦
          let ok : Ok d c f = (fits e keep, shallow) in
          elim (Bool-cases (l.lt m.needmin (info f).pop && l.lt (info f).pop m.needmax)) [
            | inl lucky ↦
                rw (keep, lucky)
                  (record {
                    smaller = v.smaller;
                    bigger_rep = v.bigger_rep;
                    bigger_unrep = v.bigger_unrep;
                    counts = λ n. omega (arith, v.counts n);
                    state = inr (refl, f, rw e refl, ok.0, λ n. omega arith);
                  })
            | inr unlucky ↦ elim (Bool-cases (l.lt m.need (info f).pop)) [
              | inl big ↦ elim (Bool-cases (info f).is_rep) [
                | inl rep ↦
                    rw (keep, unlucky, big, rep)
                      (record {
                        smaller = v.smaller;
                        bigger_rep =
                            All-append (Ok d c) s.bigger_rep (f ∷ []) v.bigger_rep (ok, tt);
                        bigger_unrep = v.bigger_unrep;
                        counts = λ n.
                            omega (arith, v.counts n, count_all-append n s.bigger_rep (f ∷ []));
                        state = inl (idle, e);
                      })
                | inr unrep ↦
                    rw (keep, unlucky, big, unrep)
                      (record {
                        smaller = v.smaller;
                        bigger_rep = v.bigger_rep;
                        bigger_unrep =
                            All-append (Ok d c) s.bigger_unrep (f ∷ []) v.bigger_unrep (ok, tt);
                        counts = λ n.
                            omega (arith, v.counts n, count_all-append n s.bigger_unrep (f ∷ []));
                        state = inl (idle, e);
                      })
              ]
              | inr small ↦
                  rw (keep, unlucky, small)
                    (record {
                      smaller = All-insert_pop (Ok d c) f s.smaller ok v.smaller;
                      bigger_rep = v.bigger_rep;
                      bigger_unrep = v.bigger_unrep;
                      counts = λ n. omega (arith, v.counts n, count_all-insert_pop n f s.smaller);
                      state = inl (idle, e);
                    })
            ]
          ]
    ]

  module _ (d : ℕ) (c : Choice T) where
    Scanned-mono :
        (bound bound' : ℕ → ℕ) (s : Scan T)
        → ((n : ℕ) → bound n ≤ bound' n)
        → Scanned d c bound s
        → Scanned d c bound' s
    Scanned-mono bound bound' s le v = record {
      smaller = v.smaller;
      bigger_rep = v.bigger_rep;
      bigger_unrep = v.bigger_unrep;
      counts = λ n. omega (arith, v.counts n, le n);
      state = elim v.state [
        | inl h ↦ inl h
        | inr (a, f, b, fit, few) ↦ inr (a, f, b, fit, λ n. omega (arith, few n, le n))
      ];
    }

    idle_choice :
        (bound : ℕ → ℕ) (s : Scan T) → Scanned d c bound s → s.lucky ≡ false → s.choice ≡ c
    idle_choice bound s v idle = elim v.state [
      | inl h ↦ h.1
      | inr h ↦ absurd (ground (arith, h.0, idle))
    ]

    scan_from :
        (m : Limits T) (bound : ℕ → ℕ) (fs : List (Frag T)) (s : Scan T)
        → Scanned d c bound s
        → s.lucky ≡ false
        → Shallow d fs
        → Scanned d c (λ n. bound n + count_all n fs) (scan l m fs s)
    unfolding scan
    scan_from m bound [] s v idle h = Scanned-mono bound _ s (λ n. omega arith) v
    scan_from m bound (f ∷ fs) s v idle h =
        let s' = look l m f s in
        let v' = look-Scanned m d c bound f s v idle (idle_choice bound s v idle) h.0 in
        elim (Bool-cases s'.lucky) [
          | inl e ↦ rw e (Scanned-mono _ _ s' (λ n. omega arith) v')
          | inr e ↦ rw e (
              Scanned-mono _ _ (scan l m fs s') (λ n. omega arith)
                (scan_from m (λ n. bound n + count_frag n f) fs s' v' e h.1))
        ]

    -- A scan leaves the choice alone or adds one fit fragment to it, and what it sets apart is fit
    -- and stands below.
    pub scan-Scanned :
        (m : Limits T) (fs : List (Frag T))
        → Shallow d fs
        → Scanned d c (λ n. count_all n fs) (scan l m fs (scan_start l c))
    scan-Scanned m fs h =
        Scanned-mono _ _ _ (λ n. omega arith)
          (scan_from m (λ _. 0) fs (scan_start l c)
            (record {
              smaller = tt;
              bigger_rep = tt;
              bigger_unrep = tt;
              counts = λ n. omega arith;
              state = inl (refl, refl);
            })
            refl h)
