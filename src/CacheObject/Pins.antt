-- ===== src/CacheObject/Pins.antt =====
-- mds/mdstypes.h, `get` and `put`: the reference count is the sum of the pins.
use mds.Prelude.{
  ℕ, ◌+◌, ◌-◌, ◌≤◌, ◌<◌, ◌≡◌, refl, Bool, true, false, Option, none, some, List, [], ◌∷◌, arith,
  ltb, ◌==◌, if◌then◌else◌,
}
use mds.CacheObject.{
  Pin, Hook, first_get, last_put, put_notify, after_put, CacheObject, pins, get_pin_totals,
  set_pins, get, put,
}

pub pins-set_pins :
    (q by : Pin) (n : ℕ) (m : List (Pin × ℕ))
    → pins q (set_pins by n m) ≡ (if q == by then n else pins q m)
unfolding pins set_pins
pins-set_pins q by n [] = refl
pins-set_pins q by n ((p, k) ∷ m) = ground (arith, pins-set_pins q by n m)

pub totals-set_pins :
    (by : Pin) (n : ℕ) (m : List (Pin × ℕ))
    → get_pin_totals (set_pins by n m) + pins by m ≡ get_pin_totals m + n
unfolding pins set_pins get_pin_totals
totals-set_pins by n [] = omega arith
totals-set_pins by n ((p, k) ∷ m) = ground (arith, totals-set_pins by n m)

pub pins-le-totals : (by : Pin) (m : List (Pin × ℕ)) → pins by m ≤ get_pin_totals m
unfolding pins get_pin_totals
pins-le-totals by [] = omega arith
pins-le-totals by ((p, k) ∷ m) = ground (arith, pins-le-totals by m)

-- The virtual calls, newest first, in turn: true if the last one is `first_get`, none if the order
-- is broken.
abbrev pub hook_state : List Hook → Option Bool
hook_state [] = some false
hook_state (first_get ∷ hs) = elim (hook_state hs) [ some false ↦ some true | _ ↦ none ]
hook_state (last_put ∷ hs) = elim (hook_state hs) [ some true ↦ some false | _ ↦ none ]
hook_state (put_notify ∷ hs) = hook_state hs

-- The count is the sum of the pins, and the hooks were called in turn, the last one to match it.
pub record Counted {W : Type 0} (o : CacheObject W) : Type 0 where
  pub total : o.ref ≡ get_pin_totals o.ref_map
  pub in_turn : hook_state o.hooks ≡ some (ltb 0 o.ref)

module _ {W : Type 0} where
  -- The object after a `get` and after a `put`.
  abbrev pub got : Pin → CacheObject W → CacheObject W
  got by o = record o {
    ref = o.ref + 1;
    ref_map = set_pins by (pins by o.ref_map + 1) o.ref_map;
    hooks = if o.ref == 0 then first_get ∷ o.hooks else o.hooks;
  }

  abbrev pub dropped : Pin → CacheObject W → CacheObject W
  dropped by o = record o {
    ref = o.ref - 1;
    ref_map = set_pins by (pins by o.ref_map - 1) o.ref_map;
    hooks = after_put (o.ref - 1) o.notifies o.hooks;
  }

  pub get-eq : (by : Pin) (o : CacheObject W) → Counted o → get by o ≡ some (got by o)
  unfolding get
  get-eq by o c = ground (arith, totals-set_pins by (pins by o.ref_map + 1) o.ref_map)

  pub got-Counted : (by : Pin) (o : CacheObject W) → Counted o → Counted (got by o)
  got-Counted by o c = record {
    total = omega (arith, c.total, totals-set_pins by (pins by o.ref_map + 1) o.ref_map);
    in_turn = ground (arith, c.in_turn);
  }

  pub put-eq :
      (by : Pin) (o : CacheObject W)
      → Counted o
      → 0 < pins by o.ref_map
      → put by o ≡ some (dropped by o)
  unfolding put
  put-eq by o c held =
      ground
        (arith, totals-set_pins by (pins by o.ref_map - 1) o.ref_map, pins-le-totals by o.ref_map)

  pub dropped-Counted :
      (by : Pin) (o : CacheObject W) → Counted o → 0 < pins by o.ref_map → Counted (dropped by o)
  dropped-Counted by o c held = record {
    total = omega (
      arith,
      c.total,
      totals-set_pins by (pins by o.ref_map - 1) o.ref_map,
      pins-le-totals by o.ref_map,
    );
    in_turn = ground (arith, c.in_turn, c.total, pins-le-totals by o.ref_map);
  }

  -- On an object whose count is the sum of its pins, with the virtual calls in turn: a `get` always
  -- succeeds, a `put` succeeds exactly if the pin is held, each keeps the object so, and each
  -- changes the count of its pin by one and of no other pin.
  pub get-put-Counted :
      (by : Pin) (o : CacheObject W)
      → Counted o
      → ((o' : CacheObject W) × (get by o ≡ some o')
          × Counted o'
          × ((q : Pin)
              → pins q o'.ref_map ≡ (if q == by then pins q o.ref_map + 1 else pins q o.ref_map)))
        × ((0 < pins by o.ref_map
              → (o' : CacheObject W) × (put by o ≡ some o')
                × Counted o'
                × ((q : Pin)
                    → pins q o'.ref_map
                      ≡ (if q == by then pins q o.ref_map - 1 else pins q o.ref_map)))
            × (pins by o.ref_map ≡ 0 → put by o ≡ none))
  unfolding put
  get-put-Counted by o c = (
    (
      got by o,
      get-eq by o c,
      got-Counted by o c,
      λ q. ground (arith, pins-set_pins q by (pins by o.ref_map + 1) o.ref_map),
    ),
    (
      λ held. (
        dropped by o,
        put-eq by o c held,
        dropped-Counted by o c held,
        λ q. ground (arith, pins-set_pins q by (pins by o.ref_map - 1) o.ref_map),
      ),
      λ e. ground arith,
    ),
  )
