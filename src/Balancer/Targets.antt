-- ===== src/Balancer/Targets.antt =====
-- mds/MDBalancer.cc, `check_targets`: the servers that this one means to export to, those that the
-- monitors know of, and when it tells them. Ranks are numbers; a set is a map to the unit.
pub mod Aging
use mds.Prelude.{
  ℕ, suc, ◌+◌, ◌≤◌, ◌<◌, ◌≡◌, ◌↔◌, refl, Bool, true, false, not, ◌&&◌, ◌||◌, Option, none, some,
  List, [], ◌∷◌, arith, ◌==◌, if◌then◌else◌, Map, From, find, put, find-put, find-From, From-mono,
  put-From, Bool-cases, Option-cases, inl, inr,
}
use mds.Prelude.Int.{ℤ, pos, ltb_ℤ}

abbrev pub RankSet : Type 0
RankSet = Map (Unit {0})

abbrev pub is_some {ℓ} : {A : Type ℓ} → Option A → Bool
is_some none = false
is_some (some _) = true

abbrev pub or_zero : Option ℕ → ℕ
or_zero none = 0
or_zero (some n) = n

-- `m.count(r)`, as a test.
abbrev pub has {ℓ} : {V : Type ℓ} → ℕ → Map V → Bool
has r m = is_some (find r m)

pub record Targets (T : Type 0) : Type 0 where
  pub my_targets : Map T
  pub old_prev_targets : Map ℕ  -- for how many checks they have not been targets

pub record Removal : Type 0 where
  pub target_removal_min : ℤ
  pub target_removal_max : ℤ

-- The answer, and the targets that are sent to the monitors, if they are.
pub record Checked (T : Type 0) : Type 0 where
  pub ok : Bool
  pub sent : Option RankSet
  pub targets : Targets T

module _ {T : Type 0} where
  -- The first loop, over the targets that the monitors know.
  unfoldable pub age : Map T → RankSet → Map ℕ → Map ℕ
  age my [] old = old
  age my ((p, _) ∷ ps) old =
      let o = if has p old then old else put p 0 old in
      age my ps (if has p my then o else put p (or_zero (find p o) + 1) o)

  -- The second loop, over the targets of this server: what it needs, their counts, and whether the
  -- monitors do not know one of them.
  unfoldable pub need : Map T → RankSet → RankSet
  need [] s = s
  need ((i, _) ∷ is) s = need is (put i tt s)

  unfoldable pub reset : Map T → Map ℕ → Map ℕ
  reset [] old = old
  reset ((i, _) ∷ is) old = reset is (put i 0 old)

  unfoldable pub one_unknown : RankSet → Map T → Bool
  one_unknown map_targets [] = false
  one_unknown map_targets ((i, _) ∷ is) = not (has i map_targets) || one_unknown map_targets is

-- The third loop, over the counts: those that stay, what is wanted, and whether one is too old.
unfoldable pub prune : (map_targets needed : RankSet) → Map ℕ → Map ℕ
prune map_targets needed [] = []
prune map_targets needed ((p, n) ∷ ps) =
    let rest = prune map_targets needed ps in
    if not (has p map_targets) && not (has p needed) then rest else (p, n) ∷ rest

unfoldable pub want : Removal → Map ℕ → RankSet → RankSet
want cfg [] s = s
want cfg ((p, n) ∷ ps) s =
    want cfg ps (if ltb_ℤ (pos n) cfg.target_removal_min then put p tt s else s)

unfoldable pub one_too_old : Removal → Map ℕ → Bool
one_too_old cfg [] = false
one_too_old cfg ((p, n) ∷ ps) = not (ltb_ℤ (pos n) cfg.target_removal_max) || one_too_old cfg ps

unfoldable pub check_targets :
    {T : Type 0} → Removal → (map_targets : RankSet) → Targets T → Checked T
check_targets cfg map_targets b =
    let needed = need b.my_targets [] in
    let unknown = one_unknown map_targets b.my_targets in
    let old =
      prune map_targets needed
        (reset b.my_targets (age b.my_targets map_targets b.old_prev_targets)) in
    record {
      ok = not unknown;
      sent = if unknown || one_too_old cfg old then some (want cfg old needed) else none;
      targets = record b { old_prev_targets = old };
    }
