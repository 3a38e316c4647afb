-- ===== src/InodeT.antt =====
-- mds/mdstypes.h, inode_t: truncation, and the ranges that clients may write. The other fields are
-- left out.
mod Tests
use mds.Prelude.{
  ℕ, suc, ◌+◌, ◌%◌, ◌^◌, ◌≤◌, ◌<◌, ◌≡◌, ◌≢◌, ◌⊎◌, inl, inr, refl, Bool, true, false, not, Option,
  none, some, List, [], ◌∷◌, arith, ltb, leb, ◌==◌, if◌then◌else◌, ◌>>=◌, ◌>>◌, assert, Map, From,
  find, find-From, Bool-cases,
}

-- client_writeable_range_t.
pub record Range : Type 0 where
  pub first : ℕ
  pub last : ℕ
  pub follows : ℕ

pub record InodeT : Type 0 where
  pub size : ℕ
  pub max_size_ever : ℕ
  pub truncate_seq : ℕ
  pub truncate_size : ℕ
  pub truncate_from : ℕ
  pub truncate_pending : ℕ
  pub rbytes : ℕ
  pub client_ranges : Map Range
  pub version : ℕ
  pub backtrace_version : ℕ

abbrev pub is_truncating : InodeT → Bool
is_truncating i = ltb 0 i.truncate_pending

unfoldable pub truncate : (old_size new_size : ℕ) → InodeT → Option InodeT
truncate old_size new_size i = do
  assert (ltb new_size old_size)
  some (record i {
    max_size_ever = if ltb i.max_size_ever old_size then old_size else i.max_size_ever;
    truncate_from = old_size;
    size = new_size;
    rbytes = new_size;
    truncate_size = new_size;
    truncate_seq = (i.truncate_seq + 1) % 2 ^ 32;
    truncate_pending = (i.truncate_pending + 1) % 2 ^ 32;
  })

-- The loop of `get_max_size`, with the largest end so far.
unfoldable pub max_last : (max : ℕ) → Map Range → ℕ
max_last max [] = max
max_last max ((c, r) ∷ rs) = max_last (if ltb max r.last then r.last else max) rs

unfoldable pub get_max_size : InodeT → ℕ
unfolding max_last
get_max_size i = max_last 0 i.client_ranges

unfoldable pub set_last : (new_max : ℕ) → Map Range → Map Range
set_last new_max [] = []
set_last new_max ((c, r) ∷ rs) = (c, record r { last = new_max }) ∷ set_last new_max rs

unfoldable pub set_max_size : (new_max : ℕ) → InodeT → InodeT
unfolding set_last
set_max_size new_max i = record i {
  client_ranges = if new_max == 0 then [] else set_last new_max i.client_ranges;
}

unfoldable pub trim_ranges : (last : ℕ) → Map Range → Map Range
trim_ranges last [] = []
trim_ranges last ((c, r) ∷ rs) =
    let rest = trim_ranges last rs in if leb last r.follows then rest else (c, r) ∷ rest

unfoldable pub trim_client_ranges : (last : ℕ) → InodeT → InodeT
unfolding trim_ranges
trim_client_ranges last i = record i { client_ranges = trim_ranges last i.client_ranges }

abbrev pub is_backtrace_updated : InodeT → Bool
is_backtrace_updated i = i.backtrace_version == i.version

unfoldable pub update_backtrace : (pv : ℕ) → InodeT → InodeT
update_backtrace pv i = record i { backtrace_version = if pv == 0 then i.version else pv }

max_last_grows : (max : ℕ) (rs : Map Range) → max ≤ max_last max rs
unfolding max_last
max_last_grows max [] = omega arith
max_last_grows max ((c, r) ∷ rs) =
    ground (arith, max_last_grows (if ltb max r.last then r.last else max) rs)

max_last_bounds :
    (max c : ℕ) (r : Range) (rs : Map Range) → find c rs ≡ some r → r.last ≤ max_last max rs
unfolding max_last
max_last_bounds max c r [] h = cc
max_last_bounds max c r ((k, q) ∷ rs) h =
    let m = if ltb max q.last then q.last else max in
    ground (arith, h, max_last_grows m rs, max_last_bounds m c r rs)

max_last-set_last :
    (max new_max : ℕ) (rs : Map Range)
    → max ≤ new_max
    → max_last max (set_last new_max rs) ≡ (elim rs [ [] ↦ max | _ ∷ _ ↦ new_max ])
unfolding max_last set_last
max_last-set_last max new_max [] le = refl
max_last-set_last max new_max ((c, r) ∷ []) le = ground (arith, le)
max_last-set_last max new_max ((c, r) ∷ q ∷ rs) le =
    ground (arith, le, max_last-set_last new_max new_max (q ∷ rs) (omega arith))

max_last_set :
    (new_max : ℕ) (rs : Map Range)
    → max_last 0 (if new_max == 0 then [] else set_last new_max rs)
      ≡ (elim rs [ [] ↦ 0 | _ ∷ _ ↦ new_max ])
unfolding max_last set_last
max_last_set new_max [] = ground arith
max_last_set new_max (x ∷ rs) = ground (arith, max_last-set_last 0 new_max (x ∷ rs) (omega arith))

-- The size that clients may write to is at least the end of each of their ranges, and once it is
-- set it is what it was set to, if there is a range, and nothing if there is none.
pub get_max_size_lem :
    (i : InodeT) (new_max : ℕ)
    → ((c : ℕ) (r : Range) → find c i.client_ranges ≡ some r → r.last ≤ get_max_size i)
      × (get_max_size (set_max_size new_max i)
          ≡ (elim i.client_ranges [ [] ↦ 0 | _ ∷ _ ↦ new_max ]))
unfolding get_max_size set_max_size
get_max_size_lem i new_max =
    (λ c r h. max_last_bounds 0 c r i.client_ranges h, max_last_set new_max i.client_ranges)
