-- ===== src/Balancer/Targets/Aging.antt =====
-- mds/MDBalancer.cc, `check_targets`: what a check does to the counts, and what it sends.
use mds.Prelude.{
  ℕ, suc, ◌+◌, ◌≡◌, ◌↔◌, refl, true, false, ◌&&◌, ◌||◌, none, some, [], ◌∷◌, arith, ◌==◌,
  if◌then◌else◌, Map, From, find, put, find-put, find-From, From-mono, put-From,
}
use mds.Prelude.Int.{pos, ltb_ℤ}
use mds.Balancer.Targets.{
  RankSet, is_some, or_zero, has, Targets, Removal, Checked, age, need, reset, one_unknown, prune,
  want, check_targets,
}

module _ {T : Type 0} (r : ℕ) where
  find-need : (my : Map T) (s : RankSet) → has r (need my s) ≡ (has r my || has r s)
  unfolding need
  find-need [] s = refl
  find-need ((i, v) ∷ is) s = ground (arith, find-need is (put i tt s), find-put i r tt s)

  find-reset :
      (my : Map T) (old : Map ℕ) → find r (reset my old) ≡ (if has r my then some 0 else find r old)
  unfolding reset
  find-reset [] old = refl
  find-reset ((i, v) ∷ is) old = ground (arith, find-reset is (put i 0 old), find-put i r 0 old)

module _ (r : ℕ) where
  find-prune :
      (map_targets needed : RankSet) (old : Map ℕ)
      → find r (prune map_targets needed old)
        ≡ (if has r map_targets || has r needed then find r old else none)
  unfolding prune
  find-prune map_targets needed [] = ground arith
  find-prune map_targets needed ((p, n) ∷ ps) = ground (arith, find-prune map_targets needed ps)

  -- What is wanted: what is needed, and the targets of late.
  has-want :
      (cfg : Removal) (n : ℕ) (old : Map ℕ) (s : RankSet)
      → From n old
      → has r (want cfg old s)
        ≡ (has r s || (has r old && ltb_ℤ (pos (or_zero (find r old))) cfg.target_removal_min))
  unfolding want
  has-want cfg n [] s h = ground arith
  has-want cfg n ((p, k) ∷ ps) s h = ground (
    arith,
    has-want cfg (suc p) ps (if ltb_ℤ (pos k) cfg.target_removal_min then put p tt s else s) h.1,
    find-put p r tt s,
    find-From r (suc p) ps h.1,
  )

-- One round of the first loop.
abbrev aged : {T : Type 0} → Map T → ℕ → Map ℕ → Map ℕ
aged my p old =
    let o = if has p old then old else put p 0 old in
    if has p my then o else put p (or_zero (find p o) + 1) o

module _ {T : Type 0} (r : ℕ) (my : Map T) where
  find-aged :
      (p : ℕ) (old : Map ℕ)
      → find r (aged my p old)
        ≡ (if r == p then some (or_zero (find p old) + (if has p my then 0 else 1)) else find r old)
  find-aged p old = ground (
    arith,
    find-put p r 0 old,
    find-put p p 0 old,
    find-put p r (or_zero (find p old) + 1) old,
    find-put p r 1 (put p 0 old),
  )

  find-age :
      (n : ℕ) (ps : RankSet) (old : Map ℕ)
      → From n ps
      → find r (age my ps old) ≡ (
          if has r ps
          then some (or_zero (find r old) + (if has r my then 0 else 1))
          else find r old)
  unfolding age
  find-age n [] old h = refl
  find-age n ((p, u) ∷ ps) old h =
      ground (
        arith,
        find-age (suc p) ps (aged my p old) h.1,
        find-aged p old,
        find-From r (suc p) ps h.1,
      )

reset-From : {T : Type 0} (my : Map T) (old : Map ℕ) → From 0 old → From 0 (reset my old)
unfolding reset
reset-From [] old h = h
reset-From ((i, v) ∷ is) old h = reset-From is (put i 0 old) (put-From i 0 0 old h (omega arith))

aged-From : {T : Type 0} (my : Map T) (p : ℕ) (old : Map ℕ) → From 0 old → From 0 (aged my p old)
aged-From my p old h = ground (
  arith,
  put-From p 0 0 old h,
  put-From p 0 1 (put p 0 old),
  put-From p 0 (or_zero (find p old) + 1) old h,
  put-From p 0 (or_zero (find p (put p 0 old)) + 1) (put p 0 old),
)

age-From :
    {T : Type 0} (my : Map T) (ps : RankSet) (old : Map ℕ) → From 0 old → From 0 (age my ps old)
unfolding age
age-From my [] old h = h
age-From my ((p, u) ∷ ps) old h = age-From my ps (aged my p old) (aged-From my p old h)

prune-From :
    (n : ℕ) (map_targets needed : RankSet) (old : Map ℕ)
    → From n old
    → From n (prune map_targets needed old)
unfolding prune
prune-From n map_targets needed [] h = h
prune-From n map_targets needed ((p, k) ∷ ps) h = ground (
  arith,
  prune-From (suc p) map_targets needed ps h.1,
  From-mono n (suc p) (prune map_targets needed ps),
)

one_unknown_none :
    {T : Type 0} (map_targets : RankSet) (my : Map T)
    → one_unknown map_targets my ≡ false
    → (r : ℕ) → has r my ≡ true
    → has r map_targets ≡ true
unfolding one_unknown
one_unknown_none map_targets [] h r there = cc
one_unknown_none map_targets ((i, v) ∷ is) h r there =
    let known : one_unknown map_targets is ≡ false = ground (arith, h) in
    ground (arith, h, there, one_unknown_none map_targets is known r)

one_unknown_some :
    {T : Type 0} (map_targets : RankSet) (my : Map T)
    → ((r : ℕ) → has r my ≡ true → has r map_targets ≡ true)
    → one_unknown map_targets my ≡ false
unfolding one_unknown
one_unknown_some map_targets [] h = refl
one_unknown_some map_targets ((i, v) ∷ is) h = ground (
  arith,
  h i (ground arith),
  one_unknown_some map_targets is (λ r there. h r (ground (arith, there))),
)

module _ {T : Type 0} (cfg : Removal) (map_targets : RankSet) (b : Targets T) where
  abbrev result : Checked T
  result = check_targets cfg map_targets b

  -- A check of the targets answers whether the monitors know every target of this server. It sets
  -- the count of each target to nothing, raises it for the servers that only the monitors have as
  -- targets, and forgets all others. If the monitors do not know a target they are told; they are
  -- told the targets and the servers that were targets less than the least number of checks ago.
  pub check_targets_lem :
      From 0 map_targets
      → From 0 b.old_prev_targets
      → ((result.ok ≡ true) ↔ ((r : ℕ) → has r b.my_targets ≡ true → has r map_targets ≡ true))
        × ((r : ℕ)
            → find r result.targets.old_prev_targets ≡ (
                if has r b.my_targets
                then some 0
                else if has r map_targets
                then some (or_zero (find r b.old_prev_targets) + 1)
                else none))
        × ((result.ok ≡ false) → is_some result.sent ≡ true)
        × ((w : RankSet) (r : ℕ)
            → result.sent ≡ some w
            → has r w ≡ (
                has r b.my_targets
                || (has r map_targets
                    && ltb_ℤ
                        (pos (or_zero (find r result.targets.old_prev_targets)))
                        cfg.target_removal_min)))
  unfolding check_targets
  check_targets_lem m o =
      let my = b.my_targets in
      let needed = need my [] in
      let before = reset my (age my map_targets b.old_prev_targets) in
      let counts : (r : ℕ)
          → find r (prune map_targets needed before) ≡ (
              if has r my
              then some 0
              else if has r map_targets
              then some (or_zero (find r b.old_prev_targets) + 1)
              else none) =
        λ r. ground (
          arith,
          find-prune r map_targets needed before,
          find-need r my [],
          find-reset r my (age my map_targets b.old_prev_targets),
          find-age r my 0 map_targets b.old_prev_targets m,
        ) in
      let sorted =
        prune-From 0 map_targets needed before
          (reset-From my _ (age-From my map_targets b.old_prev_targets o)) in
      (
        (
          λ h. one_unknown_none map_targets my (ground (arith, h)),
          λ h. ground (arith, one_unknown_some map_targets my h),
        ),
        counts,
        λ h. ground (arith, h),
        λ w r h. ground (
          arith,
          h,
          counts r,
          find-need r my [],
          has-want r cfg 0 (prune map_targets needed before) needed sorted,
        ),
      )
