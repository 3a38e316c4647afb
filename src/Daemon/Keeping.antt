-- ===== src/Daemon/Keeping.antt =====
-- mds/MDS.cc: what a change of the state leaves as it is.
use mds.Prelude.{
  ◌≡◌, refl, ◌∙◌, Bool, true, false, not, ◌&&◌, ◌||◌, Option, none, some, [], ◌∷◌, ◌==◌,
  if◌then◌else◌, inl, inr, Bool-cases, ◌>>=◌, assert, ◌>>◌,
}
use mds.Daemon.{
  State, creating, starting, standby_replay, oneshot_replay, replay, reconnect, rejoin,
  clientreplay, active, stopping, same, Daemon, Answers, is_in, is_any_replay, set_want_state,
}
use mds.Daemon.Phases.{replay_start, recovery_done, stopping_begin}
use mds.Daemon.MapHandling.{start_state, change_state}

-- What starts with a state leaves the state, the map and the waiters for maps.
pub record IsKept (d d' : Daemon) : Type 0 where
  pub states : d'.state ≡ d.state
  pub maps : d'.mdsmap ≡ d.mdsmap
  pub waiting : d'.waiters.for_mdsmap ≡ d.waiters.for_mdsmap

abbrev pub Keeps : Daemon → Option Daemon → Type 0
Keeps d none = Unit
Keeps d (some d') = IsKept d d'

asserted-Keeps : (d d' : Daemon) (b : Bool) → IsKept d d' → Keeps d (assert b >> some d')
asserted-Keeps d d' true h = h
asserted-Keeps d d' false h = tt

then-Keeps :
    (d : Daemon) (o : Option Daemon) (f : Daemon → Option Daemon)
    → Keeps d o
    → ((x : Daemon) → IsKept d x → Keeps d (f x))
    → Keeps d (o >>= f)
then-Keeps d none f h k = tt
then-Keeps d (some x) f h k = k x h

Keeps-trans : (d d₁ : Daemon) (o : Option Daemon) → IsKept d d₁ → Keeps d₁ o → Keeps d o
Keeps-trans d d₁ none h k = tt
Keeps-trans d d₁ (some x) h k = record {
  states = k.states ∙ h.states;
  maps = k.maps ∙ h.maps;
  waiting = k.waiting ∙ h.waiting;
}

replay_start-Keeps : (a : Answers) (d : Daemon) → Keeps d (replay_start a d)
replay_start-Keeps a d = elim (Bool-cases a.osd_map_is_ready) [
  | inl h ↦ rw h (
      asserted-Keeps d _ (is_in d.state (starting ∷ []) || is_any_replay d)
        record { states = refl; maps = refl; waiting = refl })
  | inr h ↦ rw h record { states = refl; maps = refl; waiting = refl }
]

stopping_begin-IsKept : (a : Answers) (d : Daemon) → IsKept d (stopping_begin a d)
stopping_begin-IsKept a d = elim (Bool-cases (d.mdsmap.num_in == 1 && a.has_sessions)) [
  | inl h ↦ rw h record { states = refl; maps = refl; waiting = refl }
  | inr h ↦ rw h record { states = refl; maps = refl; waiting = refl }
]

start_state-Keeps : (a : Answers) (old s : State) (d : Daemon) → Keeps d (start_state a old s d)
start_state-Keeps a old replay d = replay_start-Keeps a d
start_state-Keeps a old standby_replay d = replay_start-Keeps a d
start_state-Keeps a old oneshot_replay d = replay_start-Keeps a d
start_state-Keeps a old starting d =
    asserted-Keeps d _ (is_in d.state (starting ∷ []) || is_any_replay d)
      record { states = refl; maps = refl; waiting = refl }
start_state-Keeps a old creating d =
    asserted-Keeps d _ (not a.kills_create) record { states = refl; maps = refl; waiting = refl }
start_state-Keeps a old stopping d =
    asserted-Keeps d (stopping_begin a d) (same old active) (stopping_begin-IsKept a d)
start_state-Keeps a old _ d = record { states = refl; maps = refl; waiting = refl }

recovery_done-Keeps : (old : State) (d : Daemon) → Keeps d (recovery_done old d)
recovery_done-Keeps old d =
    asserted-Keeps d _ (is_in d.state (clientreplay ∷ active ∷ []))
      (elim (Bool-cases (same old creating)) [
        | inl h ↦ rw h record { states = refl; maps = refl; waiting = refl }
        | inr h ↦ rw h record { states = refl; maps = refl; waiting = refl }
      ])

pub change_state-Keeps : (a : Answers) (old : State) (d : Daemon) → Keeps d (change_state a old d)
unfolding change_state
change_state-Keeps a old d =
    let d₁ : Daemon = set_want_state d.state d in
    elim (Bool-cases (same old standby_replay)) [
      | inl h ↦ rw h (
          asserted-Keeps d d₁ (same d.state replay)
            record { states = refl; maps = refl; waiting = refl })
      | inr h ↦ rw h (
          then-Keeps d _ (start_state a old d.state) (first_part d) (λ x k.
            Keeps-trans d x (start_state a old d.state x) k (start_state-Keeps a old d.state x)))
    ]
  where
    first_part :
        (d : Daemon)
        → Keeps d (
            if is_in d.state (active ∷ clientreplay ∷ [])
              && is_in old (creating ∷ rejoin ∷ reconnect ∷ [])
            then recovery_done old (set_want_state d.state d)
            else some (set_want_state d.state d))
    first_part d =
        elim (Bool-cases (
          is_in d.state (active ∷ clientreplay ∷ [])
          && is_in old (creating ∷ rejoin ∷ reconnect ∷ []))) [
            | inl h ↦ rw h (
                Keeps-trans d (set_want_state d.state d) _
                  record { states = refl; maps = refl; waiting = refl }
                  (recovery_done-Keeps old (set_want_state d.state d)))
            | inr h ↦ rw h record { states = refl; maps = refl; waiting = refl }
          ]
