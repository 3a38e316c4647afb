-- ===== src/CacheObject/Tests.antt =====
-- Runs of the cache object's operations.
use mathlib.Core.Option
use mathlib.Core.List.{Perm}
use mds.Prelude.{
  ℕ, ◌+◌, ◌-◌, ◌<◌, ◌≡◌, ◌≢◌, refl, ◌⊎◌, not, false, none, some, List, [], ◌∷◌, ◌++◌, map, arith,
  ◌==◌, if◌then◌else◌, keep, find,
}
use mds.CacheObject.{
  CacheObject, Pin, replicated, waiter, dirty, first_get, pins, set_pins, get_pin_totals, get, put,
  remove_replica, meets, take_waiting, take_loop, is_waiter_for, highest_bit,
}
use mds.CacheObject.Pins.{Counted, get-put-Counted}
use mds.CacheObject.Replicas.{Replicates, remove_replica_lem}
use mds.CacheObject.Waiters.{Waits, take_waiting_lem, is_waiter_for_misses}

-- Two waiters, for bit 1 and for bits 1 and 2, one replica, and a pin each.
abbrev busy : CacheObject ℕ
busy = record {
  ref = 2;
  ref_map = (waiter, 1) ∷ (replicated, 1) ∷ [];
  notifies = false;
  hooks = first_get ∷ [];
  replica_map = (3, 1) ∷ [];
  waiting = (2, 70) ∷ (6, 71) ∷ [];
}

busy-Counted : Counted busy
unfolding get_pin_totals
busy-Counted = record { total = refl; in_turn = refl }

get-put-Counted_example :
    ((o' : CacheObject ℕ) × (get dirty busy ≡ some o')
      × Counted o'
      × ((q : Pin)
          → pins q o'.ref_map
            ≡ (if q == dirty then pins q busy.ref_map + 1 else pins q busy.ref_map)))
    × ((0 < pins dirty busy.ref_map
          → (o' : CacheObject ℕ) × (put dirty busy ≡ some o')
            × Counted o'
            × ((q : Pin)
                → pins q o'.ref_map
                  ≡ (if q == dirty then pins q busy.ref_map - 1 else pins q busy.ref_map)))
        × (pins dirty busy.ref_map ≡ 0 → put dirty busy ≡ none))
get-put-Counted_example = get-put-Counted dirty busy busy-Counted

busy-Waits : Waits busy
unfolding pins
busy-Waits = record { counted = busy-Counted; pinned = refl }

busy-Replicates : Replicates busy
unfolding pins
busy-Replicates = record { counted = busy-Counted; pinned = refl; rises = omega arith }

take_waiting_lem_example :
    (ws : List ℕ) × (o' : CacheObject ℕ) × (take_waiting 4 busy ≡ some (ws, o'))
    × Waits o'
    × (ws ≡ map (λ e. e.1) (keep (meets 4) busy.waiting))
    × (o'.waiting ≡ keep (λ e. not (meets 4 e)) busy.waiting)
    × Perm (map (λ e. e.1) busy.waiting) (ws ++ map (λ e. e.1) o'.waiting)
take_waiting_lem_example = take_waiting_lem 4 busy busy-Waits

taken_in_order : Option.map {B = List ℕ} (λ r. r.0) (take_waiting 6 busy) ≡ some (70 ∷ 71 ∷ [])
unfolding take_waiting take_loop put pins set_pins get_pin_totals
taken_in_order = refl

is_waiter_for_misses_example :
    (keep (meets 6) (record busy { waiting = (2, 70) ∷ [] }).waiting ≢ [])
    × (is_waiter_for 6 0 (record busy { waiting = (2, 70) ∷ [] }) ≡ false)
unfolding highest_bit
is_waiter_for_misses_example =
    is_waiter_for_misses 6 2 70 (record busy { waiting = (2, 70) ∷ [] }) refl refl (omega arith)

remove_replica_lem_example :
    ((find 3 busy.replica_map ≡ none) × (remove_replica 3 busy ≡ none))
    ⊎ ((nonce : ℕ) × (find 3 busy.replica_map ≡ some nonce)
        × (o' : CacheObject ℕ) × (remove_replica 3 busy ≡ some o')
        × Replicates o'
        × ((m : ℕ) → find m o'.replica_map ≡ (if m == 3 then none else find m busy.replica_map)))
remove_replica_lem_example = remove_replica_lem 3 busy busy-Replicates
