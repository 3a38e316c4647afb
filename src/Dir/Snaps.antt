-- ===== src/Dir/Snaps.antt =====
-- mds/CDir.cc, try_trim_snap_dentry and purge_stale_snap_data: dentries of snapshots that are gone.
use mds.Prelude.{
  ℕ, ◌<◌, ◌≡◌, ◌≢◌, refl, sym, ◌∙◌, ◌⊎◌, All, All-mono, Bool, true, false, not, ◌&&◌, Option, none,
  some, List, [], ◌∷◌, arith, ltb, ◌==◌, if◌then◌else◌, ◌>>=◌, ◌>>◌, assert, Bool-cases, inl, inr,
}
use mds.Dir.Key.{Key, key_eq}
use mds.Dir.Types.{
  Linkage, null, remote, primary, Dentry, key_of, Inode, mark_inode_clean, remove_inode, Dir, call,
}
use mds.Dir.Items.{find_item, remove_dentry}
use mds.Dir.Items.Counters.{Consistent}
use mds.Dir.Items.Linking.{Consistent-same, remove_dentry_lem}

-- `snaps.lower_bound(first)`, on the rising list of the snapshots.
unfoldable pub next_snap : (first : ℕ) → List ℕ → Option ℕ
next_snap first [] = none
next_snap first (s ∷ ss) = if ltb s first then next_snap first ss else some s

-- No snapshot lies in the interval of the dentry.
abbrev pub no_snap : Option ℕ → (last : ℕ) → Bool
no_snap none last = true
no_snap (some s) last = ltb last s

abbrev pub only_dirty : (num_ref : ℕ) (is_dirty : Bool) → Bool
only_dirty n dirty = n == (if dirty then 1 else 0)

abbrev pub inode_free : (ℕ → Inode) → Linkage → Bool
inode_free inodes null = true
inode_free inodes (remote _ _) = true
inode_free inodes (primary ino) = only_dirty (inodes ino).num_ref (inodes ino).is_dirty

-- The inode of a primary link is marked clean first, by its class.
abbrev pub cleaned : (mark_clean : Inode → Inode) → (ℕ → Inode) → Linkage → ℕ → Inode
cleaned mark_clean inodes (primary ino) n =
    if n == ino && (inodes n).is_dirty then mark_clean (inodes n) else inodes n
cleaned mark_clean inodes _ n = inodes n

abbrev pub clean_link : (ℕ → Inode) → Linkage → Dir → Dir
clean_link inodes (primary ino) d =
    if (inodes ino).is_dirty then call (mark_inode_clean ino) d else d
clean_link inodes _ d = d

abbrev pub drop_link : Linkage → Dir → Dir
drop_link (primary ino) d = call (remove_inode ino) d
drop_link _ d = d

-- The dentry is stale and nothing holds it or its inode but its being dirty.
abbrev pub is_trimmable : (ℕ → Inode) → List ℕ → Dentry → Bool
is_trimmable inodes snaps dn =
    no_snap (next_snap dn.first snaps) dn.last
    && only_dirty dn.num_ref dn.is_dirty
    && inode_free inodes dn.linkage

unfoldable pub try_trim_snap_dentry :
    (nosnap : ℕ) (mark_clean : Inode → Inode)
    → (ℕ → Inode)
    → (loaded : Bool) → List ℕ
    → Dentry
    → Dir
    → Option (Bool × Dir)
try_trim_snap_dentry nosnap mark_clean inodes loaded snaps dn d =
    assert (not (dn.last == nosnap))
    >> (if is_trimmable inodes snaps dn
        then (remove_dentry nosnap (cleaned mark_clean inodes dn.linkage) loaded dn
              (clean_link inodes dn.linkage d)
            >>= λ d₁. some (true, drop_link dn.linkage d₁))
        else some (false, d))

-- The loop, over the dentries in their order.
unfoldable pub purge_loop :
    (nosnap : ℕ) (mark_clean : Inode → Inode)
    → (ℕ → Inode)
    → (loaded : Bool) → List ℕ
    → List Dentry
    → Dir
    → Option Dir
purge_loop nosnap mark_clean inodes loaded snaps [] d = some d
purge_loop nosnap mark_clean inodes loaded snaps (dn ∷ dns) d = do
  d' ←
      if dn.last == nosnap
      then some d
      else (try_trim_snap_dentry nosnap mark_clean inodes loaded snaps dn d >>= λ r. some r.1)
  purge_loop nosnap mark_clean inodes loaded snaps dns d'

unfoldable pub purge_stale_snap_data :
    (nosnap : ℕ) (mark_clean : Inode → Inode)
    → (ℕ → Inode)
    → (loaded : Bool) → List ℕ
    → Dir
    → Option Dir
unfolding purge_loop
purge_stale_snap_data nosnap mark_clean inodes loaded snaps d =
    purge_loop nosnap mark_clean inodes loaded snaps d.contents.items d

clean_link-contents :
    (inodes : ℕ → Inode) (l : Linkage) (d : Dir) → (clean_link inodes l d).contents ≡ d.contents
clean_link-contents inodes null d = refl
clean_link-contents inodes (remote i t) d = refl
clean_link-contents inodes (primary i) d = ground arith

clean_link-base :
    (inodes : ℕ → Inode) (l : Linkage) (d : Dir) → (clean_link inodes l d).base ≡ d.base
clean_link-base inodes null d = refl
clean_link-base inodes (remote i t) d = refl
clean_link-base inodes (primary i) d = ground arith

drop_link-contents : (l : Linkage) (d : Dir) → (drop_link l d).contents ≡ d.contents
drop_link-contents null d = refl
drop_link-contents (remote i t) d = refl
drop_link-contents (primary i) d = refl

drop_link-base : (l : Linkage) (d : Dir) → (drop_link l d).base ≡ d.base
drop_link-base null d = refl
drop_link-base (remote i t) d = refl
drop_link-base (primary i) d = refl

-- The set of the snapshots is read in its order, which rises.
abbrev pub Ascending : List ℕ → Type 0
Ascending [] = Unit
Ascending (s ∷ ss) = All (λ t. s < t) ss × Ascending ss

-- Every snapshot lies outside the interval from `first` to `last`.
abbrev pub Outside : (first last : ℕ) → List ℕ → Type 0
Outside first last snaps = All (λ s. (s < first) ⊎ (last < s)) snaps

-- No snapshot needs the dentry, and nothing but being dirty holds it or the inode it is the primary
-- link of.
abbrev pub IsStale : (ℕ → Inode) → List ℕ → Dentry → Type 0
IsStale inodes snaps dn =
    Outside dn.first dn.last snaps
    × (dn.num_ref ≡ (if dn.is_dirty then 1 else 0))
    × ((ino : ℕ)
        → dn.linkage ≡ primary ino
        → (inodes ino).num_ref ≡ (if (inodes ino).is_dirty then 1 else 0))

no_snap-Outside :
    (first last : ℕ) (snaps : List ℕ)
    → Ascending snaps
    → no_snap (next_snap first snaps) last ≡ true
    → Outside first last snaps
unfolding next_snap
no_snap-Outside first last [] up e = tt
no_snap-Outside first last (s ∷ ss) up e = elim (Bool-cases (ltb s first)) [
  | inl below ↦
      (inl (ground (arith, below)), no_snap-Outside first last ss up.1 (ground (arith, below, e)))
  | inr above ↦
      let past : last < s = ground (arith, above, e) in
      (inr past, All-mono _ _ ss (λ t lt. inr (omega (arith, past, lt))) up.0)
]

Outside-no_snap :
    (first last : ℕ) (snaps : List ℕ)
    → Outside first last snaps
    → no_snap (next_snap first snaps) last ≡ true
unfolding next_snap
Outside-no_snap first last [] h = refl
Outside-no_snap first last (s ∷ ss) h = ground (arith, h.0, Outside-no_snap first last ss h.1)

inode_free_sound :
    (inodes : ℕ → Inode) (l : Linkage) (ino : ℕ)
    → inode_free inodes l ≡ true
    → l ≡ primary ino
    → (inodes ino).num_ref ≡ (if (inodes ino).is_dirty then 1 else 0)
inode_free_sound inodes null ino h e = cc
inode_free_sound inodes (remote i t) ino h e = cc
inode_free_sound inodes (primary i) ino h e =
    let same : i ≡ ino = cc in rw (sym same) (ground (arith, h))

inode_free_complete :
    (inodes : ℕ → Inode) (l : Linkage)
    → ((ino : ℕ)
        → l ≡ primary ino
        → (inodes ino).num_ref ≡ (if (inodes ino).is_dirty then 1 else 0))
    → inode_free inodes l ≡ true
inode_free_complete inodes null h = refl
inode_free_complete inodes (remote i t) h = refl
inode_free_complete inodes (primary i) h = ground (arith, h i refl)

module _ (inodes : ℕ → Inode) (snaps : List ℕ) (dn : Dentry) where
  is_trimmable-IsStale :
      Ascending snaps → is_trimmable inodes snaps dn ≡ true → IsStale inodes snaps dn
  is_trimmable-IsStale up e = (
    no_snap-Outside dn.first dn.last snaps up (ground (arith, e)),
    ground (arith, e),
    λ ino. inode_free_sound inodes dn.linkage ino (ground (arith, e)),
  )

  IsStale-is_trimmable : IsStale inodes snaps dn → is_trimmable inodes snaps dn ≡ true
  IsStale-is_trimmable (outside, held, free) = ground (
    arith,
    Outside-no_snap dn.first dn.last snaps outside,
    held,
    inode_free_complete inodes dn.linkage free,
  )

module _ (nosnap : ℕ) where
  -- On a snapped dentry of the map with no lease, and on snapshots in their order, the call fails
  -- no assertion and answers yes exactly if no snapshot lies in the interval of the dentry and
  -- nothing but being dirty holds it or the inode it is the primary link of. The dentry is then
  -- gone and no other changes; with the answer no, no dentry changes. The fragment stays
  -- consistent.
  pub try_trim_snap_dentry_lem :
      (mark_clean : Inode → Inode) (inodes : ℕ → Inode) (loaded : Bool) (snaps : List ℕ)
      (dn : Dentry) (d : Dir)
      → Consistent nosnap d
      → find_item (key_of dn) d.contents.items ≡ some dn
      → dn.num_leases ≡ 0
      → dn.last ≢ nosnap
      → Ascending snaps
      → (trimmed : Bool) × (d' : Dir) × (try_trim_snap_dentry nosnap mark_clean inodes loaded snaps
            dn d
          ≡ some (trimmed, d'))
        × (trimmed ≡ true → IsStale inodes snaps dn)
        × (IsStale inodes snaps dn → trimmed ≡ true)
        × Consistent nosnap d'
        × ((k : Key)
            → find_item k d'.contents.items
              ≡ (if trimmed && key_eq k (key_of dn) then none else find_item k d.contents.items))
  unfolding try_trim_snap_dentry
  try_trim_snap_dentry_lem mark_clean inodes loaded snaps dn d v there free snapped up =
      let old : (dn.last == nosnap) ≡ false = ground (arith, snapped) in
      elim (Bool-cases (is_trimmable inodes snaps dn)) [
        | inl due ↦
            let e = clean_link inodes dn.linkage d in
            let same = clean_link-contents inodes dn.linkage d in
            let ve = Consistent-same nosnap d e (same, clean_link-base inodes dn.linkage d) v in
            let (d₁, done, v₁, finds) =
              (remove_dentry_lem nosnap (cleaned mark_clean inodes dn.linkage) loaded dn e ve
                  (rw same there)).0
                free in
            (
              true,
              drop_link dn.linkage d₁,
              rw (old, due, done) refl,
              λ _. is_trimmable-IsStale inodes snaps dn up due,
              λ _. refl,
              Consistent-same nosnap d₁ (drop_link dn.linkage d₁)
                  (drop_link-contents dn.linkage d₁, drop_link-base dn.linkage d₁) v₁,
              λ k. rw (drop_link-contents dn.linkage d₁) (finds k ∙ rw same refl),
            )
        | inr not_due ↦ (
          false,
          d,
          rw (old, not_due) refl,
          λ e. cc,
          λ stale. sym not_due ∙ IsStale-is_trimmable inodes snaps dn stale,
          v,
          λ k. refl,
        )
      ]
