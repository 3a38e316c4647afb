-- ===== src/Balancer/Exports/Choosing.antt =====
-- mds/MDBalancer.cc, find_exports: what a search chooses.
use mathlib.Core.List.{reverse, reverse-append, map-append, append_assoc, append-nil}
use mds.Prelude.{
  ℕ, ◌+◌, ◌≤◌, ◌≡◌, refl, sym, ◌∙◌, false, List, [], ◌∷◌, ◌++◌, map, arith, All, All-append,
  All-mono,
}
use mds.Balancer.Load.{Load}
use mds.Balancer.Tree.{Frag, info, count_frag, count_all, count_all-append}
use mds.Balancer.Exports.{Choice, is_in, take}
use mds.Balancer.Exports.Scanning.{Fits}

is_in-append : (n : ℕ) (xs ys : List ℕ) → is_in n (xs ++ ys) ≡ false → is_in n xs ≡ false
is_in-append n [] ys h = refl
is_in-append n (x ∷ xs) ys h = ground (arith, h, is_in-append n xs ys)

module _ {T : Type 0} where
  pub All-reverse : (P : Frag T → Type 0) (fs : List (Frag T)) → All P fs → All P (reverse fs)
  All-reverse P [] h = tt
  All-reverse P (f ∷ fs) h =
      rw (reverse-append (f ∷ []) fs)
        (All-append P (reverse fs) (f ∷ []) (All-reverse P fs h.1) (h.0, tt))

  pub count_all-reverse : (n : ℕ) (fs : List (Frag T)) → count_all n (reverse fs) ≡ count_all n fs
  count_all-reverse n [] = refl
  count_all-reverse n (f ∷ fs) =
      rw (reverse-append (f ∷ []) fs)
        (omega (arith, count_all-append n (reverse fs) (f ∷ []), count_all-reverse n fs))

  -- What was excluded before is excluded later.
  abbrev pub Later : Choice T → Choice T → Type 0
  Later c c' = (n : ℕ) → is_in n c'.already ≡ false → is_in n c.already ≡ false

module _ {T : Type 0} (l : Load T) where
  -- The load that is shed with some fragments, added up in order.
  abbrev pub shed : T → List (Frag T) → T
  shed have [] = have
  shed have (f ∷ fs) = shed (l.plus have (info f).pop) fs

  pub shed-append :
      (have : T) (xs ys : List (Frag T)) → shed have (xs ++ ys) ≡ shed (shed have xs) ys
  shed-append have [] ys = refl
  shed-append have (x ∷ xs) ys = shed-append (l.plus have (info x).pop) xs ys

  -- From one choice to another: the fragments chosen on the way were fit for export at the choice
  -- `base`, what is had is what they shed, and no number is in their trees more often than the
  -- bound.
  pub record Grew (base : Choice T) (bound : ℕ → ℕ) (c c' : Choice T) : Type 0 where
    pub chosen : List (Frag T)
    pub exports : c'.exports ≡ c.exports ++ chosen
    pub have : c'.have ≡ shed c.have chosen
    pub already : c'.already ≡ c.already ++ map (λ f. (info f).id) chosen
    pub fit : All (Fits base) chosen
    pub counts : (n : ℕ) → count_all n chosen ≤ bound n

  pub Grew-refl : (base : Choice T) (bound : ℕ → ℕ) (c : Choice T) → Grew base bound c c
  Grew-refl base bound c = record {
    chosen = [];
    exports = sym (append-nil c.exports);
    have = refl;
    already = sym (append-nil c.already);
    fit = tt;
    counts = λ n. omega arith;
  }

  pub Grew-take :
      (base : Choice T) (bound : ℕ → ℕ) (f : Frag T) (c : Choice T)
      → Fits base f
      → ((n : ℕ) → count_frag n f ≤ bound n)
      → Grew base bound c (take l f c)
  Grew-take base bound f c fit few = record {
    chosen = f ∷ [];
    exports = refl;
    have = refl;
    already = refl;
    fit = (fit, tt);
    counts = λ n. omega (arith, few n);
  }

  pub Grew-trans :
      (base : Choice T) (a b bound : ℕ → ℕ) (c d e : Choice T)
      → ((n : ℕ) → a n + b n ≤ bound n)
      → Grew base a c d
      → Grew base b d e
      → Grew base bound c e
  Grew-trans base a b bound c d e room g h = record {
    chosen = g.chosen ++ h.chosen;
    exports = h.exports ∙ rw g.exports (append_assoc c.exports g.chosen h.chosen);
    have = h.have ∙ rw g.have (sym (shed-append c.have g.chosen h.chosen));
    already =
        h.already
        ∙ rw (g.already, map-append (λ (f : Frag T). (info f).id) g.chosen h.chosen)
            (append_assoc c.already (map (λ f. (info f).id) g.chosen)
              (map (λ f. (info f).id) h.chosen));
    fit = All-append (Fits base) g.chosen h.chosen g.fit h.fit;
    counts =
        λ n. omega (arith, room n, g.counts n, h.counts n, count_all-append n g.chosen h.chosen);
  }

  pub Grew-mono :
      (base : Choice T) (bound bound' : ℕ → ℕ) (c c' : Choice T)
      → ((n : ℕ) → bound n ≤ bound' n)
      → Grew base bound c c'
      → Grew base bound' c c'
  Grew-mono base bound bound' c c' le g = record {
    chosen = g.chosen;
    exports = g.exports;
    have = g.have;
    already = g.already;
    fit = g.fit;
    counts = λ n. omega (arith, g.counts n, le n);
  }

  pub Grew-base :
      (base c c' : Choice T) (bound : ℕ → ℕ)
      → Later base c
      → Grew c bound c c'
      → Grew base bound c c'
  Grew-base base c c' bound later g = record {
    chosen = g.chosen;
    exports = g.exports;
    have = g.have;
    already = g.already;
    fit = All-mono (Fits c) (Fits base) g.chosen (λ f h. (h.0, h.1, later (info f).id h.2)) g.fit;
    counts = g.counts;
  }

  pub Grew-Later :
      (base : Choice T) (bound : ℕ → ℕ) (c c' : Choice T) → Grew base bound c c' → Later c c'
  Grew-Later base bound c c' g n h =
      is_in-append n c.already (map (λ f. (info f).id) g.chosen) (rw g.already at h)
