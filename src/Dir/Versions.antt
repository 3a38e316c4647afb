-- ===== src/Dir/Versions.antt =====
-- mds/CDir.cc: the versions of a fragment, when it is dirty, and the start of a commit.
use mds.Prelude.{
  ℕ, ◌+◌, ◌%◌, ◌^◌, ◌≤◌, ◌<◌, ◌≡◌, refl, Bool, true, false, not, ◌&&◌, ◌||◌, Option, some, List,
  ◌∷◌, arith, ltb, leb, ◌==◌, if◌then◌else◌, ◌>>=◌, ◌>>◌, assert, Bool-cases, inl, inr,
}
use mds.CacheObject.{dirty, pins}
use mds.CacheObject.Pins.{Counted, got, get-eq, got-Counted, pins-set_pins}
use mds.Dir.Types.{
  Dir, Call, list_dirty, list_new, unlist_dirty, unlist_new, omap_commit, get_pin, put_pin, call,
}

-- The version that is returned is the projected one.
unfoldable pub pre_dirty : (min : ℕ) → Dir → Dir
pre_dirty min d =
    let high = if ltb d.versions.projected_version min then min else d.versions.projected_version in
    record d { versions = record d.versions { projected_version = (high + 1) % 2 ^ 64 } }

-- `_mark_dirty`: `has_segment` is whether a log segment is given, `is_listed` whether the fragment
-- is on a list of new ones.
unfoldable pub set_dirty : (has_segment is_listed : Bool) → Dir → Option Dir
set_dirty has_segment is_listed d = do
  assert (d.flags.dirty_bit || has_segment)
  d₁ ←
      if d.flags.dirty_bit
      then some d
      else get_pin dirty (record d { flags = record d.flags { dirty_bit = true } })
  let d₂ = if has_segment then call list_dirty d₁ else d₁
  some (
      if has_segment && d₂.versions.committed_version == 0 && not is_listed
      then call list_new d₂
      else d₂)

unfoldable pub mark_dirty : (pv : ℕ) (has_segment is_listed : Bool) → Dir → Option Dir
unfolding set_dirty
mark_dirty pv has_segment is_listed d = do
  assert (ltb d.versions.version pv)
  assert (leb pv d.versions.projected_version)
  set_dirty has_segment is_listed (record d { versions = record d.versions { version = pv } })

unfoldable pub mark_clean : Dir → Option Dir
mark_clean d =
    if d.flags.dirty_bit
    then put_pin dirty (
        call unlist_new
          (call unlist_dirty (record d { flags = record d.flags { dirty_bit = false } })))
    else some d

-- `_commit`.
unfoldable pub start_commit : (want : ℕ) → Dir → Option Dir
start_commit want d =
    let v = d.versions in
    assert (leb want v.version || v.version == 0)
    >> (assert d.flags.auth
        >> (if leb want v.committed_version
            then some d
            else if leb want v.committing_version
            then (assert d.flags.committing >> some d)
            else if ltb v.committed_version v.committing_version
            then some d
            else some (
                call (omap_commit v.version) (record d {
                  versions = record v { committing_version = v.version };
                  flags = record d.flags { committing = true };
                }))))

-- The references are counted, the pin of dirtiness is held while the fragment is dirty, no version
-- is ahead of the one that it follows, and a commit is on its way exactly if the flag says so.
pub record Versioned (d : Dir) : Type 0 where
  pub counted : Counted d.base
  pub pinned : pins dirty d.base.ref_map ≡ (if d.flags.dirty_bit then 1 else 0)
  pub committed : d.versions.committed_version ≤ d.versions.committing_version
  pub committing : d.versions.committing_version ≤ d.versions.version
  pub projected : d.versions.version ≤ d.versions.projected_version
  pub on_its_way :
      d.flags.committing ≡ ltb d.versions.committed_version d.versions.committing_version

-- A commit of a version that the fragment has, which is authoritative and has its versions in
-- order: no assertion fails, the versions stay in order, and afterwards the version is committed,
-- or a commit is on its way; at most one is started, and none while another is on its way.
pub start_commit_lem :
    (want : ℕ) (d : Dir)
    → Versioned d
    → d.flags.auth ≡ true
    → want ≤ d.versions.version
    → (d' : Dir) × (start_commit want d ≡ some d')
      × Versioned d'
      × ((d'.flags.committing || leb want d'.versions.committed_version) ≡ true)
      × (d'.calls ≡ (
          if leb want d.versions.committed_version || d.flags.committing
          then d.calls
          else omap_commit d.versions.version ∷ d.calls))
unfolding start_commit
start_commit_lem want d v auth room =
    elim (Bool-cases (leb want d.versions.committed_version || d.flags.committing)) [
      | inl e ↦ (
        d,
        ground (arith, e, auth, room, v.on_its_way, v.committed),
        v,
        ground (arith, e),
        rw e refl,
      )
      | inr e ↦ (
        call (omap_commit d.versions.version) (record d {
          versions = record d.versions { committing_version = d.versions.version };
          flags = record d.flags { committing = true };
        }),
        ground (arith, e, auth, room, v.on_its_way, v.committed),
        record {
          counted = v.counted;
          pinned = v.pinned;
          committed = ground (arith, e, room);
          committing = omega arith;
          projected = v.projected;
          on_its_way = ground (arith, e, room);
        },
        refl,
        rw e refl,
      )
    ]

-- The fragment, dirty, at its projected version, with these calls.
abbrev dirtied : Dir → List Call → Dir
dirtied d cs = record d {
  base = if d.flags.dirty_bit then d.base else got dirty d.base;
  flags = record d.flags { dirty_bit = true };
  versions = record d.versions { version = d.versions.projected_version };
  calls = cs;
}

dirtied-Versioned : (d : Dir) (cs : List Call) → Versioned d → Versioned (dirtied d cs)
dirtied-Versioned d cs v = elim (Bool-cases d.flags.dirty_bit) [
  | inl e ↦ record {
    counted = rw e v.counted;
    pinned = ground (arith, e, v.pinned);
    committed = v.committed;
    committing = omega (arith, v.committing, v.projected);
    projected = omega arith;
    on_its_way = v.on_its_way;
  }
  | inr e ↦ record {
    counted = rw e (got-Counted dirty d.base v.counted);
    pinned = ground (
      arith,
      e,
      v.pinned,
      pins-set_pins dirty dirty (pins dirty d.base.ref_map + 1) d.base.ref_map,
    );
    committed = v.committed;
    committing = omega (arith, v.committing, v.projected);
    projected = omega arith;
    on_its_way = v.on_its_way;
  }
]

abbrev dirty_calls : (is_listed : Bool) → Dir → List Call
dirty_calls is_listed d =
    if d.versions.committed_version == 0 && not is_listed
    then list_new ∷ list_dirty ∷ d.calls
    else list_dirty ∷ d.calls

mark_dirty-eq :
    (is_listed : Bool) (d : Dir)
    → Versioned d
    → d.versions.version < d.versions.projected_version
    → mark_dirty d.versions.projected_version true is_listed d
      ≡ some (dirtied d (dirty_calls is_listed d))
unfolding mark_dirty
mark_dirty-eq is_listed d v newer = elim (Bool-cases d.flags.dirty_bit) [
  | inl e ↦ ground (arith, e, newer)
  | inr e ↦ ground (arith, e, newer, get-eq dirty d.base v.counted)
]

pre_dirty-Versioned :
    (min : ℕ) (d : Dir)
    → Versioned d
    → min + 1 < 2 ^ 64
    → d.versions.projected_version + 1 < 2 ^ 64
    → Versioned (pre_dirty min d)
      × (d.versions.version < (pre_dirty min d).versions.projected_version)
unfolding pre_dirty
pre_dirty-Versioned min d v room more = (
  record {
    counted = v.counted;
    pinned = v.pinned;
    committed = v.committed;
    committing = v.committing;
    projected = ground (arith, v.projected, room, more);
    on_its_way = v.on_its_way;
  },
  ground (arith, v.projected, room, more),
)

-- Projecting a version and then marking the fragment dirty at it, with a log segment, below 2^64:
-- no assertion fails, the versions stay in order and the pin in step, and the fragment is dirty at
-- a version that is greater than the one it had.
mark_dirty-pre_dirty :
    (min : ℕ) (is_listed : Bool) (d : Dir)
    → Versioned d
    → min + 1 < 2 ^ 64
    → d.versions.projected_version + 1 < 2 ^ 64
    → let p = pre_dirty min d in
      (d' : Dir) × (mark_dirty p.versions.projected_version true is_listed p ≡ some d')
      × Versioned d'
      × (d'.flags.dirty_bit ≡ true)
      × (d.versions.version < d'.versions.version)
mark_dirty-pre_dirty min is_listed d v room more =
    let p = pre_dirty min d in
    let (vp, newer) = pre_dirty-Versioned min d v room more in
    (
      dirtied p (dirty_calls is_listed p),
      mark_dirty-eq is_listed p vp (unfold pre_dirty in newer),
      dirtied-Versioned p (dirty_calls is_listed p) vp,
      refl,
      newer,
    )
