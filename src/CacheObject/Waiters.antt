-- ===== src/CacheObject/Waiters.antt =====
-- mds/mdstypes.h, the waiters of a cache object: add_waiter, take_waiting, is_waiter_for.
use mathlib.Core.List.{Perm, perm_middle, map-append}
use mathlib.Core.List.Perm
use mds.Prelude.{
  ℕ, ◌+◌, ◌-◌, ◌<◌, ◌≡◌, ◌≢◌, refl, ◌∙◌, subst, Bool, true, false, not, some, List, [], ◌∷◌, ◌++◌,
  map, arith, leb, Bool-cases, inl, inr, keep, All,
}
use mds.CacheObject.{
  CacheObject, waiter, pins, meets, insert_waiter, add_waiter, unpin_waiter, take_waiting,
  take_loop, highest_bit, scan_waiters, is_waiter_for,
}
use mds.CacheObject.Pins.{
  Counted, got, dropped, get-eq, got-Counted, put-eq, dropped-Counted, pins-set_pins,
}

-- The pin of the waiters is held once if there is a waiter, and else not at all.
abbrev pub one_if_any {ℓ} : {A : Type ℓ} → List A → ℕ
one_if_any [] = 0
one_if_any (x ∷ xs) = 1

pub record Waits {W : Type 0} (o : CacheObject W) : Type 0 where
  pub counted : Counted o
  pub pinned : pins waiter o.ref_map ≡ one_if_any o.waiting

-- Each item is kept by a test or by its negation.
pub keep-perm {ℓ} :
    {A : Type ℓ} (p : A → Bool) (xs : List A) → Perm xs (keep p xs ++ keep (λ x. not (p x)) xs)
keep-perm p [] = Perm.nil
keep-perm p (x ∷ xs) =
    let rest = Perm.cons x (keep-perm p xs) in
    elim (Bool-cases (p x)) [
      | inl e ↦ rw e rest
      | inr e ↦
          rw e (Perm.trans rest (Perm.symm (perm_middle (keep p xs) (keep (λ x. not (p x)) xs))))
    ]

pub keep-keep-not {ℓ} :
    {A : Type ℓ} (p : A → Bool) (xs : List A) → keep p (keep (λ x. not (p x)) xs) ≡ []
keep-keep-not p [] = refl
keep-keep-not p (x ∷ xs) = ground (arith, keep-keep-not p xs)

module _ {W : Type 0} where
  insert_waiter-perm :
      (tag : ℕ) (w : W) (ws : List (ℕ × W)) → Perm (insert_waiter tag w ws) ((tag, w) ∷ ws)
  unfolding insert_waiter
  insert_waiter-perm tag w [] = Perm.refl _
  insert_waiter-perm tag w ((k, v) ∷ ws) = elim (Bool-cases (leb k tag)) [
    | inl e ↦
        rw e (
          Perm.trans (Perm.cons (k, v) (insert_waiter-perm tag w ws))
            (Perm.swap (tag, w) (k, v) ws))
    | inr e ↦ rw e (Perm.refl _)
  ]

  insert_waiter-pins :
      (tag : ℕ) (w : W) (ws : List (ℕ × W)) → one_if_any (insert_waiter tag w ws) ≡ 1
  unfolding insert_waiter
  insert_waiter-pins tag w [] = refl
  insert_waiter-pins tag w ((k, v) ∷ ws) = ground arith

  -- `add_waiter` always succeeds, the waiter joins the others, and the pin stays in step.
  add_waiter_lem :
      (tag : ℕ) (w : W) (o : CacheObject W)
      → Waits o
      → (o' : CacheObject W) × (add_waiter tag w o ≡ some o')
        × Waits o'
        × Perm o'.waiting ((tag, w) ∷ o.waiting)
  unfolding add_waiter
  add_waiter_lem tag w o v = by_waiting o.waiting refl
    where
      by_waiting :
          (ws : List (ℕ × W))
          → o.waiting ≡ ws
          → (o' : CacheObject W) × (add_waiter tag w o ≡ some o')
            × Waits o'
            × Perm o'.waiting ((tag, w) ∷ o.waiting)
      by_waiting [] e = (
        record (got waiter o) { waiting = insert_waiter tag w o.waiting },
        ground (arith, e, get-eq waiter o v.counted),
        record {
          counted = record {
            total = (got-Counted waiter o v.counted).total;
            in_turn = (got-Counted waiter o v.counted).in_turn;
          };
          pinned = ground (
            arith,
            v.pinned,
            insert_waiter-pins tag w o.waiting,
            pins-set_pins waiter waiter (pins waiter o.ref_map + 1) o.ref_map,
          );
        },
        insert_waiter-perm tag w o.waiting,
      )
      by_waiting (x ∷ xs) e = (
        record o { waiting = insert_waiter tag w o.waiting },
        ground (arith, e),
        record {
          counted = record { total = v.counted.total; in_turn = v.counted.in_turn };
          pinned = ground (arith, v.pinned, insert_waiter-pins tag w o.waiting);
        },
        insert_waiter-perm tag w o.waiting,
      )

  -- The pin after some waiters were taken, whether or not one is left.
  unpin_waiter-Waits :
      (o : CacheObject W)
      → Counted o
      → pins waiter o.ref_map ≡ 1
      → (o' : CacheObject W) × (unpin_waiter o ≡ some o') × Waits o' × (o'.waiting ≡ o.waiting)
  unfolding unpin_waiter
  unpin_waiter-Waits o c one = by_waiting o.waiting refl
    where
      by_waiting :
          (ws : List (ℕ × W))
          → o.waiting ≡ ws
          → (o' : CacheObject W) × (unpin_waiter o ≡ some o') × Waits o' × (o'.waiting ≡ o.waiting)
      by_waiting [] e =
          let held : 0 < pins waiter o.ref_map = omega arith in
          (
            dropped waiter o,
            ground (arith, e, put-eq waiter o c held),
            record {
              counted = dropped-Counted waiter o c held;
              pinned =
                  ground
                    (arith, e, pins-set_pins waiter waiter (pins waiter o.ref_map - 1) o.ref_map);
            },
            refl,
          )
      by_waiting (x ∷ xs) e =
          (o, ground (arith, e), record { counted = c; pinned = ground (arith, e) }, refl)

  -- The loop divides the waiters by the mask.
  take_loop_lem :
      (mask : ℕ) (es : List (ℕ × W))
      → ((take_loop mask es).0 ≡ map (λ e. e.1) (keep (meets mask) es))
        × ((take_loop mask es).1 ≡ keep (λ e. not (meets mask e)) es)
  unfolding take_loop
  take_loop_lem mask [] = (refl, refl)
  take_loop_lem mask (e ∷ es) =
      let (taken, left) = take_loop_lem mask es in
      elim (Bool-cases (meets mask e)) [
        | inl here ↦ (rw (here, taken) refl, rw (here, left) refl)
        | inr skip ↦ (rw (skip, taken) refl, rw (skip, left) refl)
      ]

  taken-perm :
      (mask : ℕ) (es : List (ℕ × W))
      → Perm (map (λ e. e.1) es) ((take_loop mask es).0 ++ map (λ e. e.1) (take_loop mask es).1)
  taken-perm mask es =
      let (taken, left) = take_loop_lem mask es in
      rw (taken, left)
        (subst (Perm (map (λ e. e.1) es))
          (map-append (λ e. e.1) (keep (meets mask) es) (keep (λ e. not (meets mask e)) es))
          (Perm.map _ (keep-perm (meets mask) es)))

  -- `take_waiting` always succeeds. It hands over the waiters whose tag meets the mask, these and
  -- no others, in their order, and leaves the rest in their order: no waiter is lost or handed over
  -- twice, and the pin stays in step.
  pub take_waiting_lem :
      (mask : ℕ) (o : CacheObject W)
      → Waits o
      → (ws : List W) × (o' : CacheObject W) × (take_waiting mask o ≡ some (ws, o'))
        × Waits o'
        × (ws ≡ map (λ e. e.1) (keep (meets mask) o.waiting))
        × (o'.waiting ≡ keep (λ e. not (meets mask e)) o.waiting)
        × Perm (map (λ e. e.1) o.waiting) (ws ++ map (λ e. e.1) o'.waiting)
  unfolding take_waiting
  take_waiting_lem mask o v = by_waiting o.waiting refl
    where
      left : CacheObject W
      left = record o { waiting = (take_loop mask o.waiting).1 }

      by_waiting :
          (es : List (ℕ × W))
          → o.waiting ≡ es
          → (ws : List W) × (o' : CacheObject W) × (take_waiting mask o ≡ some (ws, o'))
            × Waits o'
            × (ws ≡ map (λ e. e.1) (keep (meets mask) o.waiting))
            × (o'.waiting ≡ keep (λ e. not (meets mask e)) o.waiting)
            × Perm (map (λ e. e.1) o.waiting) (ws ++ map (λ e. e.1) o'.waiting)
      by_waiting [] e =
          ([], o, ground (arith, e), v, ground (arith, e), ground (arith, e), rw e (Perm.refl _))
      by_waiting (x ∷ xs) e =
          let (o', done, w, same) =
            unpin_waiter-Waits left
              (record { total = v.counted.total; in_turn = v.counted.in_turn })
              (ground (arith, e, v.pinned)) in
          (
            (take_loop mask o.waiting).0,
            o',
            ground (arith, e, done),
            w,
            (take_loop_lem mask o.waiting).0,
            same ∙ (take_loop_lem mask o.waiting).1,
            rw same (taken-perm mask o.waiting),
          )

  scan_waiters_below :
      (mask min : ℕ) (ws : List (ℕ × W))
      → All (λ e. e.0 < min) ws
      → scan_waiters mask min ws ≡ false
  unfolding scan_waiters
  scan_waiters_below mask min [] h = refl
  scan_waiters_below mask min ((tag, w) ∷ ws) h = ground (arith, scan_waiters_below mask min ws h.1)

  -- The one waiter, whose tag meets the mask, is missed if its tag is below the highest bit of the
  -- mask: the waiter meets the mask, and the answer is no.
  pub is_waiter_for_misses :
      (mask tag : ℕ) (w : W) (o : CacheObject W)
      → o.waiting ≡ (tag, w) ∷ []
      → meets mask (tag, w) ≡ true
      → tag < highest_bit 64 mask
      → (keep (meets mask) o.waiting ≢ []) × (is_waiter_for mask 0 o ≡ false)
  unfolding is_waiter_for
  is_waiter_for_misses mask tag w o e m below = (
    λ none_meets. ground (arith, e, none_meets, m),
    rw e (scan_waiters_below mask (highest_bit 64 mask) ((tag, w) ∷ []) (below, tt)),
  )
