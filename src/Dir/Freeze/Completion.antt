-- ===== src/Dir/Freeze/Completion.antt =====
-- mds/CDir.cc, `auth_unpin` and `adjust_nested_auth_pins`: no freeze is forgotten.
use mds.Prelude.{
  ℕ, suc, ◌+◌, ◌-◌, ◌≤◌, ◌≡◌, ◌≢◌, ◌⊎◌, refl, subst, Bool, true, false, not, ◌&&◌, ◌||◌, Option,
  some, arith, ltb, ◌==◌, Bool-cases, inl, inr,
}
use mds.Dir.Types.{Dir, inode_wait_unfreeze, call}
use mds.Dir.Freeze.{Parent, is_subtree_root, set_auth_pins, maybe_finish_freeze, auth_unpin}
use mds.Dir.Freeze.Good.{Good, pinned, pinned-Good, unpinned_last, unpinned_last-Good}
use mds.Dir.Freeze.Unpinning.{
  last_unpin, FrozeDir, FrozeTree, finish_dir_lem, finish_tree_lem, finish_tree_waits,
}

-- What is due when only the freeze's own pin is left.
abbrev pub dir_due : Dir → Bool
dir_due d = d.pinning.dir_auth_pins == 0 && d.flags.freezing_dir

abbrev pub tree_due : Dir → Bool
tree_due d =
    d.pinning.dir_auth_pins == 0 && d.pinning.nested_auth_pins == 0 && d.flags.freezing_tree

abbrev pub cold_above : Parent → Dir → Bool
cold_above p d = not (is_subtree_root d) && p.is_frozen

-- The freeze that is due is complete, or waits for the inode with a pin of its own more; else
-- nothing changes.
abbrev pub Settles : Parent → Dir → Dir → Type 0
Settles p d d' =
    ((dir_due d ≡ true) × FrozeDir d d')
    ⊎ ((tree_due d ≡ true) × (cold_above p d ≡ false) × FrozeTree d d')
    ⊎ ((tree_due d ≡ true) × (cold_above p d ≡ true) × (d' ≡ call inode_wait_unfreeze (pinned d)))
    ⊎ ((dir_due d ≡ false) × (tree_due d ≡ false) × (d' ≡ d))

waiting-Good : (d : Dir) → Good d → Good (call inode_wait_unfreeze d)
waiting-Good d g = record {
  waits = g.waits;
  authpin_held = g.authpin_held;
  frozen_held = g.frozen_held;
  one_state = g.one_state;
  own_pin = g.own_pin;
  told = ground (arith, g.told);
  kept = ground (arith, g.kept);
}

module _ (fuel : ℕ) (p : Parent) (d : Dir) (g : Good d) where
  pub maybe_finish_freeze_lem :
      d.pinning.auth_pins ≡ 1
      → (d' : Dir) × (maybe_finish_freeze p (auth_unpin (suc fuel) p) d ≡ some d')
        × Good d'
        × Settles p d d'
  unfolding maybe_finish_freeze
  maybe_finish_freeze_lem one = elim (Bool-cases (dir_due d)) [
    | inl due ↦
        let (d', done, g', froze) = finish_dir_lem fuel p d g one (ground (arith, due)) in
        (d', ground (arith, one, due, done, froze.2), g', inl (due, froze))
    | inr no_dir ↦ elim (Bool-cases (tree_due d)) [
      | inl due ↦
          let f : d.flags.freezing_dir ≡ false = ground (arith, due, no_dir) in
          elim (Bool-cases (cold_above p d)) [
            | inl cold ↦ (
              call inode_wait_unfreeze (pinned d),
              ground (arith, one, due, f, finish_tree_waits fuel p d g one cold),
              waiting-Good (pinned d) (pinned-Good d g),
              inr (inr (inl (due, cold, refl))),
            )
            | inr warm ↦
                let (d', done, g', froze) =
                  finish_tree_lem fuel p d g one (ground (arith, due)) (ground (arith, due)) warm in
                (d', ground (arith, one, due, f, done), g', inr (inl (due, warm, froze)))
          ]
      | inr no_tree ↦
          (d, ground (arith, one, no_dir, no_tree), g, inr (inr (inr (no_dir, no_tree, refl))))
    ]
  ]

pub maybe_quiet :
    (p : Parent) (unpin : Dir → Option Dir) (d : Dir)
    → d.pinning.auth_pins ≢ 1
    → maybe_finish_freeze p unpin d ≡ some d
unfolding maybe_finish_freeze
maybe_quiet p unpin d several = ground (arith, several)

-- An unpin that leaves several pins, and one that leaves one.
unpin_several :
    (fuel : ℕ) (p : Parent) (d : Dir)
    → 3 ≤ d.pinning.auth_pins
    → auth_unpin (suc fuel) p d ≡ some (set_auth_pins (d.pinning.auth_pins - 1) d)
unfolding auth_unpin
unpin_several fuel p d several =
    let left : Dir = set_auth_pins (d.pinning.auth_pins - 1) d in
    let positive : ltb 0 d.pinning.auth_pins ≡ true = ground (arith, several) in
    let other : (d.pinning.auth_pins - 1 == 0) ≡ false = ground (arith, several) in
    let cum : (d.pinning.auth_pins - 1 + d.pinning.nested_auth_pins == 0) ≡ false =
      ground (arith, several) in
    rw (positive, other, maybe_quiet p (auth_unpin fuel p) left (omega (arith, several)), cum)
      (ground arith)

unpin_to_one :
    (fuel : ℕ) (p : Parent) (d d' : Dir)
    → d.pinning.auth_pins ≡ 2
    → maybe_finish_freeze p (auth_unpin fuel p) (set_auth_pins 1 d) ≡ some d'
    → auth_unpin (suc fuel) p d ≡ some d'
unfolding auth_unpin
unpin_to_one fuel p d d' two done =
    let cum : (1 + d.pinning.nested_auth_pins == 0) ≡ false = ground arith in
    rw (two, done, cum) (ground arith)

module _ (fuel : ℕ) (p : Parent) (d : Dir) (g : Good d) where
  -- The fragment with a pin less, where it is not the last one.
  abbrev fewer : Dir
  fewer = set_auth_pins (d.pinning.auth_pins - 1) d

  fewer-Good : 2 ≤ d.pinning.auth_pins → Good fewer
  fewer-Good more = record {
    waits = g.waits;
    authpin_held = ground (arith, more, g.authpin_held);
    frozen_held = g.frozen_held;
    one_state = g.one_state;
    own_pin = λ h. omega (arith, more);
    told = ground (arith, more, g.told);
    kept = g.kept;
  }

  -- An unpin, with fuel 2 or more, succeeds wherever there is a pin that is not the freeze's own,
  -- and keeps the pins, the states and what the inode was told in step. If it leaves one pin, a
  -- freeze that is due then is complete, with no pin and no waiter for it left, or, for a
  -- tree whose inode is frozen, waits for the inode with one pin more; if it leaves none or
  -- several, the counts go down by one and the states stay.
  pub auth_unpin_lem :
      1 ≤ d.pinning.auth_pins
      → (d.pinning.auth_pins ≡ 1 → (d.flags.freezing_tree || d.flags.freezing_dir) ≡ false)
      → (d' : Dir) × (auth_unpin (suc (suc fuel)) p d ≡ some d')
        × Good d'
        × (((d.pinning.auth_pins ≡ 2) × Settles p (set_auth_pins 1 d) d')
            ⊎ ((d.pinning.auth_pins ≢ 2) × (d'.flags ≡ d.flags) × (d'.pinning ≡ fewer.pinning)))
  auth_unpin_lem some_pin idle = elim (Bool-cases (d.pinning.auth_pins == 1)) [
    | inl e ↦
        let one : d.pinning.auth_pins ≡ 1 = ground (arith, e) in
        (
          unpinned_last d,
          last_unpin (suc fuel) p d g one,
          unpinned_last-Good d g one (idle one),
          inr (omega (arith, one), refl, ground (arith, one)),
        )
    | inr e ↦
        let more : 2 ≤ d.pinning.auth_pins = ground (arith, e, some_pin) in
        elim (Bool-cases (d.pinning.auth_pins == 2)) [
          | inl t ↦
              let two : d.pinning.auth_pins ≡ 2 = ground (arith, t) in
              let left : Good (set_auth_pins 1 d) =
                subst (λ n. Good (set_auth_pins n d)) (omega (arith, two)) (fewer-Good more) in
              let (d', done, g', settled) =
                maybe_finish_freeze_lem fuel p (set_auth_pins 1 d) left refl in
              (d', unpin_to_one (suc fuel) p d d' two done, g', inl (two, settled))
          | inr t ↦ (
            fewer,
            unpin_several (suc fuel) p d (ground (arith, t, more)),
            fewer-Good more,
            inr (ground (arith, t), refl, refl),
          )
        ]
  ]
