-- ===== src/CacheObject/Replicas.antt =====
-- mds/mdstypes.h, the replicas of a cache object: add_replica, remove_replica, clear_replica_map.
use mds.Prelude.{
  ℕ, ◌+◌, ◌-◌, ◌%◌, ◌^◌, ◌<◌, ◌≡◌, refl, ◌⊎◌, none, some, [], ◌∷◌, arith, ◌==◌, if◌then◌else◌, inl,
  inr, Map, From, find, put as map_put, erase, find-put, find-erase, put-From, erase-From,
  Option-cases,
}
use mds.CacheObject.{
  CacheObject, replicated, pins, get, add_replica, unpin_replicated, remove_replica,
}
use mds.CacheObject.Pins.{
  Counted, got, dropped, get-eq, got-Counted, put-eq, dropped-Counted, pins-set_pins,
}
use mds.CacheObject.Waiters.{one_if_any}

-- The pin of the replicas is held once if there is a replica, and else not at all.
pub record Replicates {W : Type 0} (o : CacheObject W) : Type 0 where
  pub counted : Counted o
  pub pinned : pins replicated o.ref_map ≡ one_if_any o.replica_map
  pub rises : From 0 o.replica_map

put_pins {ℓ} : {V : Type ℓ} (k : ℕ) (v : V) (m : Map V) → one_if_any (map_put k v m) ≡ 1
put_pins k v [] = refl
put_pins k v ((j, w) ∷ m) = ground arith

find-ne-nil {ℓ} : {V : Type ℓ} (k : ℕ) {v : V} (m : Map V) → find k m ≡ some v → one_if_any m ≡ 1
find-ne-nil k [] e = cc
find-ne-nil k (x ∷ m) e = refl

module _ {W : Type 0} where
  -- The pin after a server was taken out, whether or not another is left.
  unpin_replicated-Replicates :
      (o : CacheObject W)
      → Counted o
      → From 0 o.replica_map
      → pins replicated o.ref_map ≡ 1
      → (o' : CacheObject W) × (unpin_replicated o ≡ some o')
        × Replicates o'
        × (o'.replica_map ≡ o.replica_map)
  unfolding unpin_replicated
  unpin_replicated-Replicates o c f one = by_map o.replica_map refl
    where
      by_map :
          (m : Map ℕ)
          → o.replica_map ≡ m
          → (o' : CacheObject W) × (unpin_replicated o ≡ some o')
            × Replicates o'
            × (o'.replica_map ≡ o.replica_map)
      by_map [] e =
          let held : 0 < pins replicated o.ref_map = omega arith in
          (
            dropped replicated o,
            ground (arith, e, put-eq replicated o c held),
            record {
              counted = dropped-Counted replicated o c held;
              pinned = ground (
                arith,
                e,
                pins-set_pins replicated replicated (pins replicated o.ref_map - 1) o.ref_map,
              );
              rises = f;
            },
            refl,
          )
      by_map (x ∷ xs) e = (
        o,
        ground (arith, e),
        record { counted = c; pinned = ground (arith, e); rises = f },
        refl,
      )

  -- `remove_replica` fails for a server that is no replica. A replica is removed: it is gone, the
  -- others stay with their nonces, and the pin is dropped with the last replica.
  pub remove_replica_lem :
      (mds : ℕ) (o : CacheObject W)
      → Replicates o
      → ((find mds o.replica_map ≡ none) × (remove_replica mds o ≡ none))
        ⊎ ((nonce : ℕ) × (find mds o.replica_map ≡ some nonce)
            × (o' : CacheObject W) × (remove_replica mds o ≡ some o')
            × Replicates o'
            × ((m : ℕ) → find m o'.replica_map ≡ (if m == mds then none else find m o.replica_map)))
  unfolding remove_replica
  remove_replica_lem mds o v = elim (Option-cases (find mds o.replica_map)) [
    | inl e ↦ inl (e, rw (e, remove_replica) refl)
    | inr (nonce, e) ↦
        let (o', done, v', same) =
          unpin_replicated-Replicates (record o { replica_map = erase mds o.replica_map })
            (record { total = v.counted.total; in_turn = v.counted.in_turn })
            (erase-From mds 0 o.replica_map v.rises)
            (omega (arith, v.pinned, find-ne-nil mds o.replica_map e)) in
        inr (
          nonce,
          e,
          o',
          rw (e, remove_replica) done,
          v',
          λ m. rw same (find-erase mds m 0 o.replica_map v.rises),
        )
  ]

  -- A server joins the replicas; the pin is taken with the first.
  add_first :
      (mds nonce : ℕ) (o : CacheObject W)
      → Replicates o
      → (o₁ : CacheObject W) × ((elim o.replica_map [ [] ↦ get replicated o | _ ∷ _ ↦ some o ])
          ≡ some o₁)
        × Replicates (record o₁ { replica_map = map_put mds nonce o₁.replica_map })
        × (o₁.replica_map ≡ o.replica_map)
  add_first mds nonce o v = by_map o.replica_map refl
    where
      by_map :
          (m : Map ℕ)
          → o.replica_map ≡ m
          → (o₁ : CacheObject W) × ((elim o.replica_map [ [] ↦ get replicated o | _ ∷ _ ↦ some o ])
              ≡ some o₁)
            × Replicates (record o₁ { replica_map = map_put mds nonce o₁.replica_map })
            × (o₁.replica_map ≡ o.replica_map)
      by_map [] e = (
        got replicated o,
        ground (arith, e, get-eq replicated o v.counted),
        record {
          counted = record {
            total = (got-Counted replicated o v.counted).total;
            in_turn = (got-Counted replicated o v.counted).in_turn;
          };
          pinned = ground (
            arith,
            v.pinned,
            put_pins mds nonce o.replica_map,
            pins-set_pins replicated replicated (pins replicated o.ref_map + 1) o.ref_map,
          );
          rises = put-From mds 0 nonce o.replica_map v.rises (omega arith);
        },
        refl,
      )
      by_map (x ∷ xs) e = (
        o,
        ground (arith, e),
        record {
          counted = record { total = v.counted.total; in_turn = v.counted.in_turn };
          pinned = ground (arith, v.pinned, put_pins mds nonce o.replica_map);
          rises = put-From mds 0 nonce o.replica_map v.rises (omega arith);
        },
        refl,
      )

  -- `add_replica` always succeeds: the server is a replica with the nonce returned, which is 1 for
  -- a new replica and one more (in 32 bits) for an old one; the others stay, and the pin is held.
  add_replica_lem :
      (mds : ℕ) (o : CacheObject W)
      → Replicates o
      → (nonce : ℕ) × (o' : CacheObject W) × (add_replica mds o ≡ some (nonce, o'))
        × Replicates o'
        × ((m : ℕ)
            → find m o'.replica_map ≡ (if m == mds then some nonce else find m o.replica_map))
        × (((find mds o.replica_map ≡ none) × (nonce ≡ 1))
            ⊎ ((old : ℕ) × (find mds o.replica_map ≡ some old) × (nonce ≡ (old + 1) % 2 ^ 32)))
  unfolding add_replica
  add_replica_lem mds o v = elim (Option-cases (find mds o.replica_map)) [
    | inl e ↦
        let (o₁, done, v', same) = add_first mds 1 o v in
        (
          1,
          record o₁ { replica_map = map_put mds 1 o₁.replica_map },
          ground (arith, e, done),
          v',
          λ m. rw same (find-put mds m 1 o.replica_map),
          inl (e, refl),
        )
    | inr (old, e) ↦
        let next = (old + 1) % 2 ^ 32 in
        (
          next,
          record o { replica_map = map_put mds next o.replica_map },
          rw (e, add_replica) refl,
          record {
            counted = record { total = v.counted.total; in_turn = v.counted.in_turn };
            pinned =
                omega (
                  arith,
                  v.pinned,
                  find-ne-nil mds o.replica_map e,
                  put_pins mds next o.replica_map,
                );
            rises = put-From mds 0 next o.replica_map v.rises (omega arith);
          },
          λ m. find-put mds m next o.replica_map,
          inr (old, e, refl),
        )
  ]
