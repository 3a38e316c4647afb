-- ===== src/CacheObject.antt =====
-- mds/mdstypes.h, class MDSCacheObject: what inodes, dentries and directory fragments share, that
-- is the reference count with its pins, the replicas and the waiters. The virtual calls
-- `first_get`, `last_put` and `_put` are effects. MDS_REF_SET is defined in the header, so the pins
-- are counted by kind, and every `get` and `put` checks the sum. A waiter is a value of any type W.
pub mod Pins
pub mod Replicas
pub mod Waiters
pub mod OtherPins
mod Tests
use mds.Prelude.{
  ℕ, zero, suc, ◌+◌, ◌-◌, ◌%◌, ◌^◌, ◌≡◌, Bool, true, false, not, ◌&&◌, ◌||◌, Option, none, some,
  List, [], ◌∷◌, ◌++◌, map, keep, ltb, leb, ◌==◌, if◌then◌else◌, ◌>>=◌, ◌>>◌, assert, Map, find,
  put as map_put, erase, bit_and, length,
}

-- The kinds of pins, by the absolute values of their numbers in the header, which are distinct.
abbrev pub Pin : Type 0
Pin = ℕ

abbrev pub replicated : Pin
replicated = 1000

abbrev pub dirty : Pin
dirty = 1001

abbrev pub waiter : Pin
waiter = 1004

abbrev pub authpin : Pin
authpin = 1006

pub data Hook : Type 0 where
  first_get last_put put_notify : Hook

pub record CacheObject (W : Type 0) : Type 0 where
  pub ref : ℕ
  pub ref_map : List (Pin × ℕ)
  pub notifies : Bool  -- STATE_NOTIFYREF
  pub hooks : List Hook  -- newest first
  pub replica_map : Map ℕ
  pub waiting : List (ℕ × W)  -- a multimap: by rising mask, equal masks in order of arrival

abbrev pub new_object : {W : Type 0} → CacheObject W
new_object = record {
  ref = 0;
  ref_map = [];
  notifies = false;
  hooks = [];
  replica_map = [];
  waiting = [];
}

-- `ref_map[by]`, which is 0 for a pin that is not there.
unfoldable pub pins : Pin → List (Pin × ℕ) → ℕ
pins by [] = 0
pins by ((p, n) ∷ m) = if by == p then n else pins by m

unfoldable pub get_pin_totals : List (Pin × ℕ) → ℕ
get_pin_totals [] = 0
get_pin_totals ((p, n) ∷ m) = n + get_pin_totals m

-- `ref_map[by] = n`.
pub set_pins : Pin → ℕ → List (Pin × ℕ) → List (Pin × ℕ)
set_pins by n [] = (by, n) ∷ []
set_pins by n ((p, k) ∷ m) = if by == p then (p, n) ∷ m else (p, k) ∷ set_pins by n m

-- `while (min & (min-1)) min &= min-1`, with fuel: only the highest bit is left.
pub highest_bit : (fuel min : ℕ) → ℕ
highest_bit zero m = m
highest_bit (suc fuel) m =
    let rest = highest_bit fuel (bit_and m (m - 1)) in if bit_and m (m - 1) == 0 then m else rest

-- The hooks that `put` calls after the count has fallen to `ref`.
abbrev pub after_put : (ref : ℕ) (notifies : Bool) → List Hook → List Hook
after_put ref notifies hs =
    let last = if ref == 0 then last_put ∷ hs else hs in
    if notifies then put_notify ∷ last else last

module _ {W : Type 0} where
  -- `none`: the check of the sum fails.
  unfoldable pub get : Pin → CacheObject W → Option (CacheObject W)
  get by o = do
    let m = set_pins by (pins by o.ref_map + 1) o.ref_map
    assert (o.ref + 1 == get_pin_totals m)
    some (record o {
      ref = o.ref + 1;
      ref_map = m;
      hooks = if o.ref == 0 then first_get ∷ o.hooks else o.hooks;
    })

  -- `bad_put` fails one of its two assertions whenever it is called.
  unfoldable pub put : Pin → CacheObject W → Option (CacheObject W)
  put by o = do
    let m = set_pins by (pins by o.ref_map - 1) o.ref_map
    assert (not (o.ref == 0 || pins by o.ref_map == 0))
    assert (o.ref - 1 == get_pin_totals m)
    some (record o {
      ref = o.ref - 1;
      ref_map = m;
      hooks = after_put (o.ref - 1) o.notifies o.hooks;
    })

  -- Replicas.
  unfoldable pub add_replica : (mds : ℕ) → CacheObject W → Option (ℕ × CacheObject W)
  add_replica mds o = elim (find mds o.replica_map) [
    | some nonce ↦
        let next = (nonce + 1) % 2 ^ 32 in
        some (next, record o { replica_map = map_put mds next o.replica_map })
    | none ↦ do
      o' ← elim o.replica_map [ [] ↦ get replicated o | _ ∷ _ ↦ some o ]
      some (1, record o' { replica_map = map_put mds 1 o'.replica_map })
  ]

  unfoldable pub add_replica_nonce : (mds nonce : ℕ) → CacheObject W → Option (CacheObject W)
  add_replica_nonce mds nonce o = do
    o' ← elim o.replica_map [ [] ↦ get replicated o | _ ∷ _ ↦ some o ]
    some (record o' { replica_map = map_put mds nonce o'.replica_map })

  -- `put` the pin if no replica is left.
  unfoldable pub unpin_replicated : CacheObject W → Option (CacheObject W)
  unpin_replicated o = elim o.replica_map [ [] ↦ put replicated o | _ ∷ _ ↦ some o ]

  unfoldable pub remove_replica : (mds : ℕ) → CacheObject W → Option (CacheObject W)
  unfolding unpin_replicated
  remove_replica mds o = elim (find mds o.replica_map) [
    | none ↦ none
    | some _ ↦ unpin_replicated (record o { replica_map = erase mds o.replica_map })
  ]

  unfoldable pub clear_replica_map : CacheObject W → Option (CacheObject W)
  clear_replica_map o = do
    o' ← elim o.replica_map [ [] ↦ some o | _ ∷ _ ↦ put replicated o ]
    some (record o' { replica_map = [] })

  -- `p->first & mask`, read as a test.
  abbrev pub meets : ℕ → ℕ × W → Bool
  meets mask (tag, w) = not (bit_and tag mask == 0)

  -- Insertion into a multimap: behind the entries of the same mask.
  pub insert_waiter : ℕ → W → List (ℕ × W) → List (ℕ × W)
  insert_waiter tag w [] = (tag, w) ∷ []
  insert_waiter tag w ((k, v) ∷ ws) =
      if leb k tag then (k, v) ∷ insert_waiter tag w ws else (tag, w) ∷ (k, v) ∷ ws

  unfoldable pub add_waiter : ℕ → W → CacheObject W → Option (CacheObject W)
  unfolding insert_waiter
  add_waiter tag w o = do
    o' ← elim o.waiting [ [] ↦ get waiter o | _ ∷ _ ↦ some o ]
    some (record o' { waiting = insert_waiter tag w o'.waiting })

  -- Take the pin away if no waiter is left.
  pub unpin_waiter : CacheObject W → Option (CacheObject W)
  unpin_waiter o = elim o.waiting [ [] ↦ put waiter o | _ ∷ _ ↦ some o ]

  -- The loop: the waiters taken, in order, and the entries that stay.
  unfoldable pub take_loop : ℕ → List (ℕ × W) → List W × List (ℕ × W)
  take_loop mask [] = ([], [])
  take_loop mask (e ∷ es) =
      let (taken, left) = take_loop mask es in
      if meets mask e then (e.1 ∷ taken, left) else (taken, e ∷ left)

  -- The waiters taken, in order, and the object with the others.
  unfoldable pub take_waiting : ℕ → CacheObject W → Option (List W × CacheObject W)
  unfolding unpin_waiter
  take_waiting mask o = elim o.waiting [
    | [] ↦ some ([], o)
    | _ ∷ _ ↦ do
      let r = take_loop mask o.waiting
      o' ← unpin_waiter (record o { waiting = r.1 })
      some (r.0, o')
  ]

  -- The scan from `lower_bound(min)`.
  pub scan_waiters : (mask min : ℕ) → List (ℕ × W) → Bool
  scan_waiters mask min [] = false
  scan_waiters mask min ((tag, w) ∷ ws) =
      let rest = scan_waiters mask min ws in
      if ltb tag min
      then rest
      else if meets mask (tag, w)
      then true
      else if ltb mask tag
      then false
      else rest

  unfoldable pub is_waiter_for : (mask min : ℕ) → CacheObject W → Bool
  unfolding highest_bit scan_waiters
  is_waiter_for mask min o =
      scan_waiters mask (if min == 0 then highest_bit 64 mask else min) o.waiting
