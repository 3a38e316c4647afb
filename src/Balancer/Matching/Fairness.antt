-- ===== src/Balancer/Matching/Fairness.antt =====
-- mds/MDBalancer.cc, prep_rebalance: the matching ends, and load is sent only where it should go.
use mathlib.Core.List.{reverse, reverse-append}
use mds.Prelude.{
  ℕ, zero, suc, ◌+◌, ◌≤◌, ◌%◌, ◌≡◌, inl, inr, refl, sym, ap, subst, ◌∙◌, Bool, true, false, ◌||◌,
  some, List, [], ◌∷◌, arith, ◌==◌, if◌then◌else◌, All, All-mono, Map, find, put, Bool-cases,
  Option-cases, length, length-append, ==_iff,
}
use mds.Balancer.Load.{Load}
use mds.Balancer.Matching.{
  MatchConfig, Cluster, Prep, Loads, at, add_at, get_maxim, get_maxex, try_match, separate,
  match_imports, match_sources, match_lists, match_all,
}
use mds.Balancer.Matching.Rescaling.{separate_lem}

-- What the code relies on in the arithmetic of loads that are numbers: a load less itself, and a
-- load that is not positive, are within the least that it deals with, and a sum of positive loads
-- is positive.
pub record Finite {T : Type 0} (l : Load T) (thousandth : T) : Type 0 where
  pub used_up : (x : T) → l.le (l.minus x x) thousandth ≡ true
  pub not_positive : (x : T) → l.le x l.zero ≡ true → l.lt x thousandth ≡ true
  pub from_zero : (x : T) → l.le x l.zero ≡ false → l.le (l.plus l.zero x) l.zero ≡ false
  pub both_positive :
      (x y : T) → l.le x l.zero ≡ false → l.le y l.zero ≡ false → l.le (l.plus x y) l.zero ≡ false

length-reverse : {A : Type 0} (xs : List A) → length (reverse xs) ≡ length xs
length-reverse [] = refl
length-reverse (x ∷ xs) =
    rw (reverse-append (x ∷ []) xs)
      (omega (arith, length-append (reverse xs) (x ∷ []), length-reverse xs))

module _ {V : Type 0} (P : ℕ × V → Type 0) where
  All-put : (k : ℕ) (v : V) (m : Map V) → P (k, v) → All P m → All P (put k v m)
  All-put k v [] h hs = (h, tt)
  All-put k v ((j, w) ∷ m) h hs = ground (arith, h, hs, All-put k v m h hs.1)

module _ {T : Type 0} (l : Load T) (cfg : MatchConfig T) (finite : Finite l cfg.thousandth)
    (c : Cluster T) (P : ℕ → Type 0) where
  -- Every target has the property, and is to get a positive load.
  abbrev pub Fair : Map T → Type 0
  Fair m = All (λ t. P t.0 × (l.le t.1 l.zero ≡ false)) m

  Fair-find : (r : ℕ) (y : T) (m : Map T) → Fair m → find r m ≡ some y → l.le y l.zero ≡ false
  Fair-find r y [] h e = absurd (ground (arith, e))
  Fair-find r y ((j, w) ∷ m) h e = elim (Bool-cases (r == j)) [
    | inl same ↦ ground (arith, same, e, h.0.1)
    | inr other ↦ Fair-find r y m h.1 (ground (arith, other, e))
  ]

  Fair-add_at :
      (r : ℕ) (x : T) (m : Map T) → P r → l.le x l.zero ≡ false → Fair m → Fair (add_at l r x m)
  Fair-add_at r x m p pos h = elim (Option-cases (find r m)) [
    | inl e ↦
        All-put (λ t. P t.0 × (l.le t.1 l.zero ≡ false)) r (l.plus (at l m r) x) m
          (p, ground (arith, e, finite.from_zero x pos)) h
    | inr (y, e) ↦
        All-put (λ t. P t.0 × (l.le t.1 l.zero ≡ false)) r (l.plus (at l m r) x) m
          (p, ground (arith, e, finite.both_positive y x (Fair-find r y m h e) pos)) h
  ]

  -- Only the targets and what is matched differ.
  abbrev pub Same : Prep T → Prep T → Type 0
  Same s s' =
      s' ≡ record s { my_targets = s'.my_targets; imported = s'.imported; exported = s'.exported }

  Same-trans : (s t u : Prep T) → Same s t → Same t u → Same s u
  Same-trans s t u f g =
      g
      ∙ ap
          (λ (x : Prep T). record x {
            my_targets = u.my_targets;
            imported = u.imported;
            exported = u.exported;
          })
          f

  abbrev Matched : Prep T → Prep T → Type 0
  Matched s s' = Fair s'.my_targets × Same s s'

  try_match_lem :
      (ex : ℕ) (maxex : T) (im : ℕ) (maxim : T) (s : Prep T)
      → ((ex == c.whoami) ≡ true → P im)
      → Fair s.my_targets
      → Matched s (try_match l c.whoami ex maxex im maxim s).0
  unfolding try_match
  try_match_lem ex maxex im maxim s p h =
      let howmuch = if l.lt maxex maxim then maxex else maxim in
      elim (Bool-cases (l.le maxex l.zero || l.le maxim l.zero || l.le howmuch l.zero)) [
        | inl nothing ↦ rw nothing (h, refl)
        | inr some_load ↦ elim (Bool-cases (ex == c.whoami)) [
          | inl mine ↦
              rw (some_load, mine)
                (Fair-add_at im howmuch s.my_targets (p mine) (ground (arith, some_load)) h, refl)
          | inr other ↦ rw (some_load, other) (h, refl)
        ]
      ]

  -- A match of loads that are not too small uses one of them up.
  try_match-used_up :
      (ex : ℕ) (maxex : T) (im : ℕ) (maxim : T) (s : Prep T)
      → (l.lt maxex cfg.thousandth || l.lt maxim cfg.thousandth) ≡ false
      → (l.le (try_match l c.whoami ex maxex im maxim s).1 cfg.thousandth
          || l.le (try_match l c.whoami ex maxex im maxim s).2 cfg.thousandth)
        ≡ true
  unfolding try_match
  try_match-used_up ex maxex im maxim s big = ground (
    arith,
    big,
    finite.used_up maxex,
    finite.used_up maxim,
    finite.not_positive maxex,
    finite.not_positive maxim,
  )

  match_imports_lem :
      (ex : ℕ) (maxex : T) (ims : List ℕ) (s : Prep T)
      → ((ex == c.whoami) ≡ true → All P ims)
      → Fair s.my_targets
      → Matched s (match_imports l cfg c.whoami ex maxex ims s)
  unfolding match_imports
  match_imports_lem ex maxex [] s p h = (h, refl)
  match_imports_lem ex maxex (im ∷ ims) s p h =
      let maxim = get_maxim l s im in
      let m = try_match l c.whoami ex maxex im maxim s in
      let (h', same) = try_match_lem ex maxex im maxim s (λ e. (p e).0) h in
      let after = match_imports_lem ex m.1 ims m.0 (λ e. (p e).1) h' in
      elim (Bool-cases (l.le maxim cfg.thousandth)) [
        | inl full ↦ rw full (match_imports_lem ex maxex ims s (λ e. (p e).1) h)
        | inr room ↦ elim (Bool-cases (l.le m.1 cfg.thousandth)) [
          | inl done ↦ rw (room, done) (h', same)
          | inr more ↦
              rw (room, more)
                (
                  after.0,
                  Same-trans s m.0 (match_imports l cfg c.whoami ex m.1 ims m.0) same after.1,
                )
        ]
      ]

  match_sources_lem :
      (exs : Loads T) (s : Prep T)
      → All P (c.import_map c.whoami)
      → Fair s.my_targets
      → Matched s (match_sources l cfg c exs s)
  unfolding match_sources
  match_sources_lem [] s p h = (h, refl)
  match_sources_lem ((x, ex) ∷ exs) s p h =
      let maxex = get_maxex l s ex in
      let t = match_imports l cfg c.whoami ex maxex (c.import_map ex) s in
      let next = λ (b : Bool). match_sources l cfg c exs (if b then s else t) in
      elim (Bool-cases (l.le maxex cfg.thousandth)) [
        | inl little ↦ subst (λ b. Matched s (next b)) (sym little) (match_sources_lem exs s p h)
        | inr much ↦
            let (h', same) =
              match_imports_lem ex maxex (c.import_map ex) s
                (λ e. subst (λ r. All P (c.import_map r)) (sym ((==_iff ex c.whoami).0 e)) p) h in
            let after = match_sources_lem exs t p h' in
            subst (λ b. Matched s (next b)) (sym much)
              (after.0, Same-trans s t (match_sources l cfg c exs t) same after.1)
      ]

  match_lists_lem :
      (fuel : ℕ) (exs ims : Loads T) (s : Prep T)
      → length exs + length ims ≤ fuel
      → All (λ im. P im.1) ims
      → Fair s.my_targets
      → (s' : Prep T) × (match_lists l cfg fuel c.whoami exs ims s ≡ some s') × Matched s s'
  unfolding match_lists
  match_lists_lem fuel [] ims s enough p h = (s, refl, (h, refl))
  match_lists_lem fuel (ex ∷ exs) [] s enough p h = (s, refl, (h, refl))
  match_lists_lem zero (ex ∷ exs) (im ∷ ims) s enough p h = absurd (omega arith)
  match_lists_lem (suc fuel) (ex ∷ exs) (im ∷ ims) s enough p h =
      let maxex = get_maxex l s ex.1 in
      let maxim = get_maxim l s im.1 in
      let m = try_match l c.whoami ex.1 maxex im.1 maxim s in
      let (h', same) = try_match_lem ex.1 maxex im.1 maxim s (λ e. p.0) h in
      elim (Bool-cases (l.lt maxex cfg.thousandth || l.lt maxim cfg.thousandth)) [
        | inl small ↦ (s, rw small refl, (h, refl))
        | inr big ↦
            let exs' = if l.le m.1 cfg.thousandth then exs else ex ∷ exs in
            let ims' = if l.le m.2 cfg.thousandth then ims else im ∷ ims in
            let shorter : length exs' + length ims' ≤ fuel =
              ground (arith, enough, try_match-used_up ex.1 maxex im.1 maxim s big) in
            let fair : All (λ im. P im.1) ims' = ground (arith, p) in
            let (s', done, (h'', same')) = match_lists_lem fuel exs' ims' m.0 shorter fair h' in
            (s', rw (big, done) refl, (h'', Same-trans s m.0 s' same same'))
      ]

  -- The matching of some loads ends: each importer has the property, and so has each source of this
  -- server's imports.
  pub match_all_lem :
      (beat : ℕ) (loads : Loads T) (s : Prep T)
      → (Q : T × ℕ → Type 0) → All Q loads
      → ((p : T × ℕ) → Q p → l.lt p.0 s.target_load ≡ true → P p.1)
      → All P (c.import_map c.whoami)
      → Fair s.my_targets
      → (s' : Prep T) × (match_all l cfg c beat loads s ≡ some s') × Fair s'.my_targets × Same s s'
  unfolding match_all
  match_all_lem beat loads s Q all good sources h =
      let (importers, exporters) = separate l cfg s.target_load loads [] [] in
      let big_first = reverse exporters in
      let Good : T × ℕ → Type 0 = λ p. Q p × (l.lt p.0 s.target_load ≡ true) in
      let importing : All (λ p. P p.1) importers =
        All-mono Good (λ p. P p.1) importers (λ p g. good p g.0 g.1)
          (separate_lem l cfg Q s.target_load loads [] [] all tt) in
      let t = match_sources l cfg c big_first s in
      let (h', same) = match_sources_lem big_first s sources h in
      let first = if beat % 2 == 1 then big_first else exporters in
      let enough : length first + length importers ≤ length exporters + length importers =
        ground (arith, length-reverse exporters) in
      let (s', done, (h'', same')) =
        match_lists_lem (length exporters + length importers) first importers t enough importing
          h' in
      (s', done, h'', Same-trans s t s' same same')
