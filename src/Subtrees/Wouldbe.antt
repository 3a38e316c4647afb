-- ===== src/Subtrees/Wouldbe.antt =====
-- mds/MDCache.cc, subtrees: the bounds that a fragment would have as a root
-- (get_wouldbe_subtree_bounds).
use mds.Prelude.{
  ℕ, ◌≡◌, refl, sym, ◌∙◌, Bool, true, false, ◌&&◌, ◌||◌, Option, some, List, [], ◌∷◌, ◌==◌, inl,
  inr, if◌then◌else◌, arith, Bool-cases, ==_iff, none, ap, Option-cases, ◌>>=◌,
}
use mds.Subtrees.{
  Authority, auth_eq, auth_default, Tree, Daemon, Cache, mem, has_key, bounds_of, is_root, first,
  insert, parent_root, is_some_eq, get_subtree_root, adjust_subtree_auth,
}
use mds.Subtrees.Walks.{
  IsTree, above_irreflexive, first-true, first-mem, first-same, first_hit, mem-insert,
}
use mds.Subtrees.Mapped.{IsMapped, IsAdjusted, is_some_eq-some}
use mds.Subtrees.Splitting.{not_root}
use mds.Subtrees.Adjusting.{IsPlaced, base, below, adjust_subtree_auth_lem}

-- The walk from a fragment up to the root: whether it meets `dir`. It must not leave the tree.
abbrev pub is_met : (root dir from : ℕ) → (above : List ℕ) → Option Bool
is_met root dir from [] = if from == root then some false else none
is_met root dir from (x ∷ xs) =
    let rest = is_met root dir x xs in
    if from == root then some false else (rest >>= λ later. some (x == dir || later))

abbrev pub collect : Tree → (root dir : ℕ) → (old bounds : List ℕ) → Option (List ℕ)
collect t root dir [] bounds = some bounds
collect t root dir (b ∷ bs) bounds = is_met root dir b (t.above b) >>= λ met.
    collect t root dir bs (if met then insert b bounds else bounds)

-- `bounds`: what the caller's set holds. A null root has an empty entry.
unfoldable pub get_wouldbe_subtree_bounds :
    Tree → (dir : ℕ) → Cache → (bounds : List ℕ) → Option (List ℕ)
unfolding get_subtree_root
get_wouldbe_subtree_bounds t dir c bounds =
    if has_key dir c.subtrees
    then some (bounds_of dir c.subtrees)
    else elim (get_subtree_root t c dir) [
      | none ↦ some bounds
      | some root ↦ collect t root dir (bounds_of root c.subtrees) bounds
    ]

is_met-top :
    (root dir from : ℕ) (xs : List ℕ) → (from == root) ≡ true → is_met root dir from xs ≡ some false
is_met-top root dir from [] h = rw h refl
is_met-top root dir from (x ∷ xs) h = rw h refl

-- The walk meets the fragment exactly if this would be the next root.
is_met_lem :
    (r r' : ℕ → Bool) (root dir : ℕ)
    → ((x : ℕ) → r' x ≡ (r x || x == dir))
    → r root ≡ true
    → r dir ≡ false
    → (from : ℕ) (xs : List ℕ) → (from == root) ≡ false
    → first r xs ≡ some root
    → is_met root dir from xs ≡ some (is_some_eq (first r' xs) dir)
is_met_lem r r' root dir more old new from [] other next = absurd (ground (arith, next))
is_met_lem r r' root dir more old new from (x ∷ xs) other next = elim (Bool-cases (x == root)) [
  | inl top ↦
      let r_top : r x ≡ true = ap r ((==_iff x root).0 top) ∙ old in
      let apart : (x == dir) ≡ false = elim (Bool-cases (x == dir)) [
        | inl same ↦ absurd (ground (arith, ap r ((==_iff x dir).0 same), r_top, new))
        | inr apart ↦ apart
      ] in
      let seen : r' x ≡ true = ground (arith, more x, r_top) in
      rw (other, is_met-top root dir x xs top, apart, seen) (ground (arith, apart))
  | inr low ↦ elim (Bool-cases (r x)) [
    | inl root_here ↦ absurd (ground (arith, next, root_here, low))
    | inr plain ↦
        let rest = is_met_lem r r' root dir more old new x xs low (ground (arith, next, plain)) in
        rw (other, rest, more x, plain) (ground arith)
  ]
]

collect_lem :
    (t : Tree) (root dir : ℕ) (p : ℕ → Bool) (bs bounds : List ℕ)
    → ((b : ℕ) → mem b bs ≡ true → is_met root dir b (t.above b) ≡ some (p b))
    → (ws : List ℕ) × (collect t root dir bs bounds ≡ some ws)
      × ((b : ℕ) → mem b ws ≡ (mem b bounds || (p b && mem b bs)))
collect_lem t root dir p [] bounds h = (bounds, refl, λ b. ground arith)
collect_lem t root dir p (a ∷ bs) bounds h =
    let rest =
      collect_lem t root dir p bs (if p a then insert a bounds else bounds)
        (λ b e. h b (ground (arith, e))) in
    (
      rest.0,
      rw (h a (ground arith)) rest.1,
      λ b. elim (Bool-cases (b == a)) [
        | inl same ↦
            ground (arith, rest.2 b, mem-insert b a bounds, same, ap p ((==_iff b a).0 same))
        | inr far ↦ ground (arith, rest.2 b, mem-insert b a bounds, far)
      ],
    )

module _ (t : Tree) (d : ℕ) (auth : Authority) (c c' : Cache) (w : IsTree t) (m : IsMapped t c)
    (a : IsAdjusted t d auth c c') where
  -- The fragment is not below itself.
  not_above_itself : is_some_eq (parent_root t c' d) d ≡ false
  not_above_itself = elim (Bool-cases (is_some_eq (parent_root t c' d) d)) [
    | inl h ↦
        absurd (ground (arith, first-mem (is_root c') d (t.above d) h, above_irreflexive t d w))
    | inr h ↦ h
  ]

  -- It is a root, it is new below a root, or it is new in a base inode.
  again :
      is_root c d ≡ true
      → (b : ℕ) → mem b (bounds_of d c.subtrees) ≡ mem b (bounds_of d c'.subtrees)
  again old b =
      m.bounds d b
      ∙ sym (
          a.mapped.bounds d b
          ∙ rw (same b, first-same (is_root c) (is_root c') same (t.above b)) refl)
    where
      same : (x : ℕ) → is_root c' x ≡ is_root c x
      same x = elim (Bool-cases (x == d)) [
        | inl e ↦ ground (arith, a.roots x, e, ap (is_root c) ((==_iff x d).0 e), old)
        | inr e ↦ ground (arith, a.roots x, e)
      ]

  claims :
      is_root c d ≡ false
      → (root : ℕ) → parent_root t c d ≡ some root
      → (b : ℕ)
      → (is_some_eq (parent_root t c' b) d && mem b (bounds_of root c.subtrees))
        ≡ mem b (bounds_of d c'.subtrees)
  claims new root next b =
      rw (m.bounds root b, a.mapped.bounds d b, a.roots b)
        (elim (Bool-cases (is_some_eq (parent_root t c' b) d)) [
          | inl below_it ↦
              let under =
                first_hit (is_root c) (is_root c') d a.roots new t (t.above b) (w.chains b) below_it
                ∙ next in
              elim (Bool-cases (b == d)) [
                | inl same ↦ absurd (
                    ground (
                      arith,
                      below_it,
                      not_above_itself,
                      ap (parent_root t c') ((==_iff b d).0 same),
                    ))
                | inr other ↦ rw (under, other) (ground (arith, below_it))
              ]
          | inr beside ↦ ground (arith, beside)
        ])

  nothing_claimed :
      ((b : ℕ) → is_root c b ≡ true → mem d (t.above b) ≡ false)
      → (b : ℕ) → mem b (bounds_of d c'.subtrees) ≡ false
  nothing_claimed alone b =
      a.mapped.bounds d b
      ∙ rw (a.roots b) (elim (Bool-cases (is_some_eq (parent_root t c' b) d)) [
        | inl below_it ↦ elim (Bool-cases (b == d)) [
          | inl same ↦ absurd (
              ground
                (arith, below_it, not_above_itself, ap (parent_root t c') ((==_iff b d).0 same)))
          | inr other ↦ elim (Bool-cases (is_root c b)) [
            | inl root ↦
                absurd (ground (arith, alone b root, first-mem (is_root c') d (t.above b) below_it))
            | inr low ↦ ground (arith, low, other)
          ]
        ]
        | inr beside ↦ ground (arith, beside)
      ])

  found :
      is_root c d ≡ false
      → (root : ℕ) → parent_root t c d ≡ some root
      → (b : ℕ) → mem b (bounds_of root c.subtrees) ≡ true
      → is_met root d b (t.above b) ≡ some (is_some_eq (parent_root t c' b) d)
  found new root next b h =
      let under = is_some_eq-some (parent_root t c b) root (ground (arith, h, m.bounds root b)) in
      let apart : (b == root) ≡ false = elim (Bool-cases (b == root)) [
        | inl same ↦ absurd (
            ground (
              arith,
              above_irreflexive t b w,
              first-mem (is_root c) b (t.above b) (ground (arith, under, same)),
            ))
        | inr other ↦ other
      ] in
      is_met_lem (is_root c) (is_root c') root d a.roots
        (first-true (is_root c) root (t.above d) (ground (arith, next))) new b (t.above b) apart
        under

wouldbe-old :
    (t : Tree) (d : ℕ) (c : Cache)
    → has_key d c.subtrees ≡ true
    → get_wouldbe_subtree_bounds t d c [] ≡ some (bounds_of d c.subtrees)
unfolding get_wouldbe_subtree_bounds
wouldbe-old t d c key = rw key refl

wouldbe-top :
    (t : Tree) (d : ℕ) (c : Cache)
    → has_key d c.subtrees ≡ false
    → get_subtree_root t c d ≡ none
    → get_wouldbe_subtree_bounds t d c [] ≡ some []
unfolding get_wouldbe_subtree_bounds
wouldbe-top t d c key up = rw (key, up) refl

wouldbe-below :
    (t : Tree) (d root : ℕ) (c : Cache)
    → has_key d c.subtrees ≡ false
    → get_subtree_root t c d ≡ some root
    → get_wouldbe_subtree_bounds t d c [] ≡ collect t root d (bounds_of root c.subtrees) []
unfolding get_wouldbe_subtree_bounds
wouldbe-below t d root c key up = rw (key, up) refl

free :
    (t : Tree) (d : ℕ) (c : Cache)
    → IsPlaced t c d
    → is_root c d ≡ false
    → get_subtree_root t c d ≡ none
    → (b : ℕ) → is_root c b ≡ true
    → mem d (t.above b) ≡ false
free t d c (base top alone) new up = alone new
free t d c (below low root some_up) new up = absurd (ground (arith, some_up, up))

-- In a tree of fragments and with the map right, for a fragment that lies below a root, or that is
-- in a base inode and either a root or above none: what the query answers for an empty set are the
-- bounds that the fragment has once it is given an authority that is not the default.
pub get_wouldbe_subtree_bounds_lem :
    (t : Tree) (m : Daemon) (d : ℕ) (auth : Authority) (e : Bool) (c : Cache)
    → IsTree t
    → IsMapped t c
    → auth_eq auth auth_default ≡ false
    → IsPlaced t c d
    → (bs : List ℕ) × (c' : Cache) × (get_wouldbe_subtree_bounds t d c [] ≡ some bs)
      × (adjust_subtree_auth t m d auth e c ≡ some c')
      × ((b : ℕ) → mem b bs ≡ mem b (bounds_of d c'.subtrees))
get_wouldbe_subtree_bounds_lem t m d auth e c w h known place =
    let a = adjust_subtree_auth_lem t m d auth e c w h known place in
    elim (Bool-cases (is_root c d)) [
      | inl old ↦ (
        bounds_of d c.subtrees,
        a.0,
        wouldbe-old t d c (h.keys d ∙ old),
        a.1,
        again t d auth c a.0 w h a.2 old,
      )
      | inr new ↦ elim (Option-cases (get_subtree_root t c d)) [
        | inl top ↦ (
          [],
          a.0,
          wouldbe-top t d c (h.keys d ∙ new) top,
          a.1,
          λ b. sym (nothing_claimed t d auth c a.0 w h a.2 (free t d c place new top) b),
        )
        | inr up ↦
            let next : parent_root t c d ≡ some up.0 = sym (not_root t c d new) ∙ up.1 in
            let got =
              collect_lem t up.0 d (λ b. is_some_eq (parent_root t a.0 b) d)
                (bounds_of up.0 c.subtrees) [] (found t d auth c a.0 w h a.2 new up.0 next) in
            (
              got.0,
              a.0,
              wouldbe-below t d up.0 c (h.keys d ∙ new) up.1 ∙ got.1,
              a.1,
              λ b. got.2 b ∙ claims t d auth c a.0 w h a.2 new up.0 next b,
            )
      ]
    ]
