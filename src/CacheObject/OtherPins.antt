-- ===== src/CacheObject/OtherPins.antt =====
-- mds/mdstypes.h, `take_waiting`: no pin but that of the waiters changes.
use mds.Prelude.{ℕ, ◌-◌, ◌≡◌, refl, false, some, List, [], ◌∷◌, arith, ◌==◌, Option-cases}
use mds.CacheObject.{CacheObject, waiter, pins, put, unpin_waiter, take_waiting, take_loop}
use mds.CacheObject.Pins.{pins-set_pins}

module _ {W : Type 0} (q : ℕ) (other : (q == waiter) ≡ false) where
  put-pins : (o o' : CacheObject W) → put waiter o ≡ some o' → pins q o'.ref_map ≡ pins q o.ref_map
  unfolding put
  put-pins o o' h =
      ground (arith, h, other, pins-set_pins q waiter (pins waiter o.ref_map - 1) o.ref_map)

  unpin_waiter-pins :
      (o o' : CacheObject W) → unpin_waiter o ≡ some o' → pins q o'.ref_map ≡ pins q o.ref_map
  unfolding unpin_waiter
  unpin_waiter-pins o o' = by_waiting o.waiting refl
    where
      by_waiting :
          (es : List (ℕ × W))
          → o.waiting ≡ es
          → unpin_waiter o ≡ some o'
          → pins q o'.ref_map ≡ pins q o.ref_map
      by_waiting [] e h = put-pins o o' (ground (arith, e, h))
      by_waiting (x ∷ xs) e h = ground (arith, e, h)

  pub take_waiting-pins :
      (mask : ℕ) (ws : List W) (o o' : CacheObject W)
      → take_waiting mask o ≡ some (ws, o')
      → pins q o'.ref_map ≡ pins q o.ref_map
  unfolding take_waiting
  take_waiting-pins mask ws o o' = by_waiting o.waiting refl
    where
      by_waiting :
          (es : List (ℕ × W))
          → o.waiting ≡ es
          → take_waiting mask o ≡ some (ws, o')
          → pins q o'.ref_map ≡ pins q o.ref_map
      by_waiting [] e h = ground (arith, e, h)
      by_waiting (x ∷ xs) e h =
          let left = record o { waiting = (take_loop mask o.waiting).1 } in
          unpin_waiter-pins left o' (ground (arith, e, h, Option-cases (unpin_waiter left)))
