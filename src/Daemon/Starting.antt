-- ===== src/Daemon/Starting.antt =====
-- mds/MDS.cc: what starts with a state of the recovery.
use mds.Prelude.{
  ℕ, ◌+◌, ◌≡◌, refl, subst, sym, ◌∙◌, Bool, true, false, ◌&&◌, ◌||◌, Option, some, [], ◌∷◌,
  if◌then◌else◌, inl, inr, Bool-cases, arith, ◌>>=◌, ap, count_if,
}
use mds.Dir.Freeze.{eq_ℤ}
use mds.Daemon.{
  State, creating, standby_replay, replay, resolve, reconnect, rejoin, clientreplay, active,
  stopping, same, Call, populate_mydir, rollback_uncommitted, recover_files, reissue_caps,
  finish_recovery, Daemon, Answers, call, call_if, is_in, set_want_state,
}
use mds.Daemon.Phases.{members_in, ranks, recovery_done}
use mds.Daemon.MapHandling.{start_state, change_state}

abbrev pub is_rollback : Call → Bool
is_rollback rollback_uncommitted = true
is_rollback _ = false

-- How often fragmentations that had not been committed were rolled back.
abbrev pub rollbacks : Daemon → ℕ
rollbacks d = count_if is_rollback d.calls

-- In a state, asking for no other, and with no replay of a standby behind.
pub record IsAt (s : State) (d : Daemon) : Type 0 where
  pub at : d.state ≡ s
  pub wants : d.want_state ≡ s
  pub passes : d.standby_replaying ≡ false

-- Uncommitted fragmentations are rolled back when resolving starts, or reconnecting straight after
-- the replay.
abbrev pub rolls_back : (old new : State) → ℕ
rolls_back old new = if same new resolve || (same new reconnect && same old replay) then 1 else 0

-- A state that follows another in the recovery.
abbrev pub is_recovering : State → Bool
is_recovering s = is_in s (resolve ∷ reconnect ∷ rejoin ∷ clientreplay ∷ active ∷ [])

pub record IsStarted (s : State) (n : ℕ) (d d' : Daemon) : Type 0 where
  pub at : IsAt s d'
  pub rolled : rollbacks d' ≡ rollbacks d + n

start_lem :
    (a : Answers) (old : State) (s : State) (d : Daemon)
    → IsAt s d
    → is_recovering s ≡ true
    → (d' : Daemon) × (start_state a old s d ≡ some d')
      × IsStarted s (rolls_back d.last_state s) d d'
start_lem a old resolve d h r = (
  _,
  refl,
  record { at = record { at = h.at; wants = h.wants; passes = h.passes }; rolled = ground arith },
)
start_lem a old reconnect d h r = (
  _,
  refl,
  record { at = record { at = h.at; wants = h.wants; passes = h.passes }; rolled = ground arith },
)
start_lem a old rejoin d h r = (
  _,
  refl,
  record { at = record { at = h.at; wants = h.wants; passes = h.passes }; rolled = ground arith },
)
start_lem a old clientreplay d h r = (
  _,
  refl,
  record { at = record { at = h.at; wants = h.wants; passes = h.passes }; rolled = ground arith },
)
start_lem a old active d h r = (
  _,
  refl,
  record { at = record { at = h.at; wants = h.wants; passes = h.passes }; rolled = ground arith },
)
start_lem a old _ d h r = absurd (ground (arith, r))

-- What does not move the daemon.
record IsStill (d d' : Daemon) : Type 0 where
  state : d'.state ≡ d.state
  want : d'.want_state ≡ d.want_state
  last : d'.last_state ≡ d.last_state
  passing : d'.standby_replaying ≡ d.standby_replaying
  rolled : rollbacks d' ≡ rollbacks d

recovery_done-IsStill :
    (old : State) (d : Daemon)
    → is_in d.state (clientreplay ∷ active ∷ []) ≡ true
    → (d' : Daemon) × (recovery_done old d ≡ some d') × IsStill d d'
recovery_done-IsStill old d h =
    let d₁ : Daemon =
      call_if (eq_ℤ d.mdsmap.tableserver d.whoami)
        (finish_recovery (ranks (members_in (clientreplay ∷ active ∷ stopping ∷ []) d.mdsmap))) d in
    let d₂ : Daemon = call populate_mydir (call reissue_caps (call recover_files d₁)) in
    elim (Bool-cases (same old creating)) [
      | inl c ↦ (
        d₁,
        rw (h, c) refl,
        record { state = refl; want = refl; last = refl; passing = refl; rolled = ground arith },
      )
      | inr c ↦ (
        d₂,
        rw (h, c) refl,
        record { state = refl; want = refl; last = refl; passing = refl; rolled = ground arith },
      )
    ]

still-IsStarted :
    (s : State) (n : ℕ) (d d₁ d₂ : Daemon) → IsStill d d₁ → IsStarted s n d₁ d₂ → IsStarted s n d d₂
still-IsStarted s n d d₁ d₂ h r = record { at = r.at; rolled = r.rolled ∙ ap (λ k. k + n) h.rolled }

then_start :
    (a : Answers) (old s : State) (d d₁ : Daemon) (o : Option Daemon)
    → o ≡ some d₁
    → IsStill d d₁
    → IsAt s d
    → is_recovering s ≡ true
    → (d' : Daemon) × ((o >>= start_state a old s) ≡ some d')
      × IsStarted s (rolls_back d.last_state s) d d'
then_start a old s d d₁ o e h here r =
    let q =
      start_lem a old s d₁
        (record {
          at = h.state ∙ here.at;
          wants = h.want ∙ here.wants;
          passes = h.passing ∙ here.passes;
        })
        r in
    (
      q.0,
      rw e q.1,
      still-IsStarted s (rolls_back d.last_state s) d d₁ q.0 h
          (subst (λ l. IsStarted s (rolls_back l s) d₁ q.0) h.last q.2),
    )

-- The end of a recovery, if this is one.
abbrev recovers : State → Daemon → Option Daemon
recovers old d =
    if is_in d.state (active ∷ clientreplay ∷ []) && is_in old (creating ∷ rejoin ∷ reconnect ∷ [])
    then recovery_done old d
    else some d

recovers-IsStill :
    (old : State) (d : Daemon) → (d' : Daemon) × (recovers old d ≡ some d') × IsStill d d'
recovers-IsStill old d =
    elim (Bool-cases (
      is_in d.state (active ∷ clientreplay ∷ [])
      && is_in old (creating ∷ rejoin ∷ reconnect ∷ []))) [
        | inl h ↦ rw h (recovery_done-IsStill old d (ground (arith, h)))
        | inr h ↦ rw h (
          d,
          refl,
          record { state = refl; want = refl; last = refl; passing = refl; rolled = refl },
        )
      ]

change-shape :
    (a : Answers) (old s : State) (d : Daemon)
    → d.state ≡ s
    → same old standby_replay ≡ false
    → change_state a old d ≡ (recovers old (set_want_state d.state d) >>= start_state a old s)
unfolding change_state
change-shape a old s d e n = rw (n, sym e) refl

pub change_state_lem :
    (a : Answers) (old s : State) (d : Daemon)
    → d.state ≡ s
    → d.standby_replaying ≡ false
    → is_recovering s ≡ true
    → same old standby_replay ≡ false
    → (d' : Daemon) × (change_state a old d ≡ some d')
      × IsStarted s (rolls_back d.last_state s) d d'
change_state_lem a old s d e p r n =
    let d₁ : Daemon = set_want_state d.state d in
    let q = recovers-IsStill old d₁ in
    let f =
      then_start a old s d₁ q.0 (recovers old d₁) q.1 q.2 (record { at = e; wants = e; passes = p })
        r in
    let same_count : rollbacks d₁ ≡ rollbacks d = ground arith in
    (
      f.0,
      change-shape a old s d e n ∙ f.1,
      record {
        at = f.2.at;
        rolled = f.2.rolled ∙ ap (λ k. k + rolls_back d.last_state s) same_count;
      },
    )
