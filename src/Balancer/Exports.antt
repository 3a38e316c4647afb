-- ===== src/Balancer/Exports.antt =====
-- mds/MDBalancer.cc, find_exports: which fragments below a directory are exported to shed a load. A
-- multimap from loads to fragments is a list in the order of the loads; its keys are the loads of
-- the fragments.
pub mod Scanning
pub mod Choosing
pub mod Searching
use mathlib.Core.List.{reverse}
use mds.Prelude.{
  ℕ, zero, suc, ◌+◌, ◌-◌, Bool, true, false, not, ◌&&◌, ◌||◌, Option, none, some, List, [], ◌∷◌,
  ◌++◌, map, ◌==◌, if◌then◌else◌, ◌>>=◌,
}
use mds.Balancer.Load.{Load}
use mds.Balancer.Tree.{Info, Frag, info, entries, subdirs}

pub record ExportConfig (T : Type 0) : Type 0 where
  pub min_start : T
  pub need_max : T
  pub need_min : T
  pub midchunk : T
  pub minchunk : T
  -- The script of mds_bal_howmuch, if there is one and the scripts are on: from the load to shed
  -- and the loads of the fragments, the numbers of those to take, from 1 on.
  pub howmuch : Option (T → List T → List ℕ)

-- What a search has chosen so far; `already` is `already_exporting`.
pub record Choice (T : Type 0) : Type 0 where
  pub exports : List (Frag T)
  pub have : T
  pub already : List ℕ

pub record Limits (T : Type 0) : Type 0 where
  pub need : T
  pub needmax : T
  pub needmin : T
  pub midchunk : T
  pub minchunk : T

pub record Scan (T : Type 0) : Type 0 where
  pub choice : Choice T
  pub lucky : Bool
  pub smaller : List (Frag T)
  pub bigger_rep : List (Frag T)
  pub bigger_unrep : List (Frag T)

abbrev pub is_in : ℕ → List ℕ → Bool
is_in n [] = false
is_in n (m ∷ ms) = n == m || is_in n ms

-- `frags[df_index]` of the numbers that the script gives; `none` is a read out of bounds.
abbrev pub pick {ℓ} : {A : Type ℓ} → List A → ℕ → Option A
pick [] i = none
pick (x ∷ xs) zero = none
pick (x ∷ xs) (suc i) = if i == 0 then some x else pick xs i

module _ {T : Type 0} (l : Load T) where
  -- `exports.push_back(dir); already_exporting.insert(dir); have += pop`.
  abbrev pub take : Frag T → Choice T → Choice T
  take f c = record {
    exports = c.exports ++ f ∷ [];
    have = l.plus c.have (info f).pop;
    already = c.already ++ (info f).id ∷ [];
  }

  -- `smaller.insert(pair(pop, subdir))`: behind those of the same load.
  unfoldable pub insert_pop : Frag T → List (Frag T) → List (Frag T)
  insert_pop f [] = f ∷ []
  insert_pop f (g ∷ gs) = if l.lt (info f).pop (info g).pop then f ∷ g ∷ gs else g ∷ insert_pop f gs

  unfoldable pub limits : ExportConfig T → (need : T) → Limits T
  limits cfg need = record {
    need = need;
    needmax = l.times need cfg.need_max;
    needmin = l.times need cfg.need_min;
    midchunk = l.times need cfg.midchunk;
    minchunk = l.times need cfg.minchunk;
  }

  -- One round of the loop over the fragments below.
  unfoldable pub look : Limits T → Frag T → Scan T → Scan T
  unfolding insert_pop
  look m f s =
      let i = info f in
      if not i.is_auth || is_in i.id s.choice.already || i.is_frozen || l.lt i.pop m.minchunk
      then s
      else if l.lt m.needmin i.pop && l.lt i.pop m.needmax
      then record s { choice = take f s.choice; lucky = true }
      else if l.lt m.need i.pop
      then (if i.is_rep
          then record s { bigger_rep = s.bigger_rep ++ f ∷ [] }
          else record s { bigger_unrep = s.bigger_unrep ++ f ∷ [] })
      else record s { smaller = insert_pop f s.smaller }

  -- A lucky find returns at once.
  unfoldable pub scan : Limits T → List (Frag T) → Scan T → Scan T
  unfolding look
  scan m [] s = s
  scan m (f ∷ fs) s =
      let s' = look m f s in let rest = scan m fs s' in if s'.lucky then s' else rest

  -- Taking fragments, the biggest first, until one is to wait, with the rest, or until there is
  -- enough: then the search returns.
  unfoldable pub grab :
      (waits : Frag T → Bool) (needmin : T)
      → List (Frag T)
      → Choice T
      → Bool × Choice T × List (Frag T)
  grab waits needmin [] c = (false, c, [])
  grab waits needmin (f ∷ fs) c =
      let c' = take f c in
      let rest = grab waits needmin fs c' in
      if waits f then (false, c, f ∷ fs) else if l.lt needmin c'.have then (true, c', fs) else rest

  -- fragment_selector_luahook: the script's choice, out of bounds included.
  unfoldable pub select : List ℕ → List (Frag T) → Choice T → Option (Choice T)
  select [] fs c = some c
  select (i ∷ is) fs c = pick fs i >>= λ f. select is fs (take f c)

  -- Searching below each of some fragments in turn, until there is enough.
  unfoldable pub drill :
      (search_in : Frag T → Choice T → Option (Choice T)) (needmin : T)
      → List (Frag T)
      → Choice T
      → Option (Bool × Choice T)
  drill search_in needmin [] c = some (false, c)
  drill search_in needmin (f ∷ fs) c = search_in f c >>= λ c'.
      (let rest = drill search_in needmin fs c' in
        if l.lt needmin c'.have then some (true, c') else rest)

  -- What follows the loop over the fragments below, without a script and with one.
  unfoldable pub by_size :
      (search_in : Frag T → Choice T → Option (Choice T)) → Limits T → Scan T → Option (Choice T)
  unfolding grab drill
  by_size search_in m s =
      let (found, c, rest) =
        grab (λ f. l.lt (info f).pop m.midchunk) m.needmin (reverse s.smaller) s.choice in
      if found
      then some c
      else (drill search_in m.needmin s.bigger_unrep c >>= λ d.
          (let (found', c', _) = grab (λ _. false) m.needmin rest d.1 in
            if d.0
            then some d.1
            else if found'
            then some c'
            else (drill search_in m.needmin s.bigger_rep c' >>= λ e. some e.1)))

  -- The script is not run on no fragments.
  abbrev pub run_script : (howmuch : T → List T → List ℕ) (amount : T) → List (Frag T) → List ℕ
  run_script howmuch amount [] = []
  run_script howmuch amount (f ∷ fs) = howmuch amount (map (λ g. (info g).pop) (f ∷ fs))

  unfoldable pub by_script :
      (search_in : Frag T → Choice T → Option (Choice T)) (howmuch : T → List T → List ℕ)
      (amount : T)
      → Limits T
      → Scan T
      → Option (Choice T)
  unfolding select drill
  by_script search_in howmuch amount m s =
      let fs = reverse s.smaller in
      select (run_script howmuch amount fs) fs s.choice >>= λ c.
      (if l.lt m.needmin c.have
        then some c
        else (drill search_in m.needmin s.bigger_unrep c >>= λ d.
            (if d.0
              then some d.1
              else (drill search_in m.needmin s.bigger_rep d.1 >>= λ e. some e.1))))

  abbrev pub scan_start : Choice T → Scan T
  scan_start c = record {
    choice = c;
    lucky = false;
    smaller = [];
    bigger_rep = [];
    bigger_unrep = [];
  }

  -- On fuel; the depth of the tree is enough.
  unfoldable pub find_exports :
      (fuel : ℕ) → ExportConfig T → (amount : T) → Frag T → Choice T → Option (Choice T)
  unfolding limits scan by_size by_script
  find_exports zero cfg amount f c = none
  find_exports (suc fuel) cfg amount f c =
      let need = l.minus amount c.have in
      let m = limits cfg need in
      let s = scan m (subdirs (entries f)) (scan_start c) in
      let deeper = find_exports fuel cfg amount in
      if l.lt need (l.times amount cfg.min_start)
      then some c
      else if s.lucky
      then some s.choice
      else elim cfg.howmuch [
        | none ↦ by_size deeper m s
        | some howmuch ↦ by_script deeper howmuch amount m s
      ]
