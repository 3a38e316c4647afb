-- ===== src/Daemon/Changes.antt =====
-- mds/MDS.cc, handle_mds_map: which changes of the state fail an assertion.
use mds.Prelude.{
  ◌<◌, ℕ, ◌≡◌, ◌↔◌, refl, sym, ◌∙◌, Bool, true, false, not, ◌&&◌, ◌||◌, Option, none, some, [], ◌∷◌,
  if◌then◌else◌, inl, inr, ◌⊎◌, Bool-cases, arith, leb, ◌>>=◌,
}
use mds.Daemon.{
  notify_mdsmap, call, State, null, dne, stopped, booting, standby, creating, starting,
  standby_replay, oneshot_replay, replay, resolve, reconnect, rejoin, clientreplay, active,
  stopping, same, MdsMap, Daemon, Answers, is_in, set_want_state,
}
use mds.Daemon.Phases.{replay_start, recovery_done}
use mds.Daemon.MapHandling.{
  note_peer, Course, onward, leaves, adopt, is_negative, identify, start_state, change_state,
  introduce, watch, follow, take_course, handle_mds_map,
}

-- A daemon in standby replay can only be made to replay, and only an active one to stop; and none
-- can be made to create its files where the configuration has it die then.
abbrev pub is_allowed : Answers → (old new : State) → Bool
is_allowed a old new =
    if same old standby_replay
    then same new replay
    else if same new stopping
    then same old active
    else if same new creating
    then not a.kills_create
    else true

-- The assertions of what starts with a state.
abbrev is_refused : Answers → (old new : State) → Bool
is_refused a old new =
    same new stopping && not (same old active) || same new creating && a.kills_create

abbrev is_none : {A : Type 0} → Option A → Bool
is_none none = true
is_none (some x) = false

replays :
    (a : Answers) (d : Daemon)
    → is_in d.state (replay ∷ standby_replay ∷ oneshot_replay ∷ []) ≡ true
    → is_none (replay_start a d) ≡ false
replays a d e = elim (Bool-cases a.osd_map_is_ready) [
  | inl h ↦ rw (h, e) (ground arith)
  | inr h ↦ rw h refl
]

start_state-fails :
    (a : Answers) (old : State) (s : State) (d : Daemon)
    → d.state ≡ s
    → is_none (start_state a old s d) ≡ is_refused a old s
start_state-fails a old null d e = refl
start_state-fails a old dne d e = refl
start_state-fails a old stopped d e = refl
start_state-fails a old booting d e = refl
start_state-fails a old standby d e = refl
start_state-fails a old creating d e = elim (Bool-cases a.kills_create) [
  | inl h ↦ rw h refl
  | inr h ↦ rw h refl
]
start_state-fails a old starting d e = rw e refl
start_state-fails a old standby_replay d e = replays a d (rw e refl)
start_state-fails a old oneshot_replay d e = replays a d (rw e refl)
start_state-fails a old replay d e = replays a d (rw e refl)
start_state-fails a old resolve d e = refl
start_state-fails a old reconnect d e = refl
start_state-fails a old rejoin d e = refl
start_state-fails a old clientreplay d e = refl
start_state-fails a old active d e = refl
start_state-fails a old stopping d e = elim (Bool-cases (same old active)) [
  | inl h ↦ rw h refl
  | inr h ↦ rw h refl
]

recovered :
    (a : Answers) (old : State) (d : Daemon)
    → is_in d.state (active ∷ clientreplay ∷ []) ≡ true
    → is_none (recovery_done old d >>= start_state a old d.state) ≡ is_refused a old d.state
recovered a old d h =
    let fine : is_in d.state (clientreplay ∷ active ∷ []) ≡ true = ground (arith, h) in
    elim (Bool-cases (same old creating)) [
      | inl c ↦ rw (fine, c) (start_state-fails a old d.state _ refl)
      | inr c ↦ rw (fine, c) (start_state-fails a old d.state _ refl)
    ]

forbidden :
    (a : Answers) (old new : State)
    → is_refused a old new
      ≡ not (
          if same new stopping
          then same old active
          else if same new creating
          then not a.kills_create
          else true)
forbidden a old new = elim (Bool-cases (same new stopping)) [
  | inl s ↦ ground (arith, s)
  | inr s ↦ ground (arith, s)
]

change_state-fails :
    (a : Answers) (old : State) (d : Daemon)
    → is_none (change_state a old d) ≡ not (is_allowed a old d.state)
unfolding change_state
change_state-fails a old d = elim (Bool-cases (same old standby_replay)) [
  | inl h ↦ rw h (elim (Bool-cases (same d.state replay)) [ inl r ↦ rw r refl | inr r ↦ rw r refl ])
  | inr h ↦
      rw h
        (elim (Bool-cases (
          is_in d.state (active ∷ clientreplay ∷ [])
          && is_in old (creating ∷ rejoin ∷ reconnect ∷ []))) [
            | inl r ↦ rw r (
                recovered a old (set_want_state d.state d) (ground (arith, r))
                ∙ forbidden a old d.state)
            | inr r ↦ rw r (
                start_state-fails a old d.state (set_want_state d.state d) refl
                ∙ forbidden a old d.state)
          ])
]

-- The daemon that goes on is the one that took its place in the map, but for its rank.
pub goes_on :
    (a : Answers) (m : MdsMap) (d : Daemon)
    → (identify a m d ≡ onward (record (adopt m d) { whoami = m.standby_for_rank }))
      ⊎ ((identify a m d ≡ onward (adopt m d)) ⊎ ((d' : Daemon) × (identify a m d ≡ leaves d')))
unfolding identify
goes_on a m d = elim (Bool-cases m.is_writeable) [
  | inr h ↦ rw h (inr (inr (_, refl)))
  | inl h ↦ rw h (elim (Bool-cases (same m.state standby)) [
    | inl s ↦ rw s (inr (inr (_, refl)))
    | inr s ↦
        rw s
          (elim (Bool-cases (
            same m.state standby_replay
            && not (same d.standby_type null)
            && not (same d.standby_type standby_replay))) [
              | inl r ↦ rw r (inr (inr (_, refl)))
              | inr r ↦ rw r (elim (Bool-cases (is_negative m.rank)) [
                | inr n ↦ rw n (inr (inl refl))
                | inl n ↦
                    rw n (elim (Bool-cases (is_in m.state (standby_replay ∷ oneshot_replay ∷ []))) [
                      | inl w ↦ rw w (inl refl)
                      | inr w ↦ rw w (inr (inr (_, refl)))
                    ])
              ])
            ])
  ])
]

abbrev pub is_onward : Course → Bool
is_onward (onward d) = true
is_onward (leaves d) = false

is_none-map :
    (f : Daemon → Daemon) (o : Option Daemon) → is_none (o >>= λ d. some (f d)) ≡ is_none o
is_none-map f none = refl
is_none-map f (some d) = refl

change-fails :
    (a : Answers) (old : State) (d : Daemon)
    → is_none (if same old d.state then some d else change_state a old d)
      ≡ (not (same old d.state) && not (is_allowed a old d.state))
change-fails a old d = elim (Bool-cases (same old d.state)) [
  | inl h ↦ rw h refl
  | inr h ↦ rw h (change_state-fails a old d)
]

follow-fails :
    (a : Answers) (before now : Daemon)
    → is_none (follow a before now)
      ≡ (not (same before.state now.state) && not (is_allowed a before.state now.state))
follow-fails a before now =
    is_none-map (watch a before.state before.mdsmap) _
    ∙ change-fails a before.state (introduce a before.whoami before.state now)

course-fails :
    (a : Answers) (m : MdsMap) (d : Daemon)
    → is_none (take_course a d (identify a m d)) ≡ (
        is_onward (identify a m d)
        && not (same d.state m.state)
        && not (is_allowed a d.state m.state))
course-fails a m d = elim (goes_on a m d) [
  | inl e ↦ rw e (follow-fails a d _)
  | inr (inl e) ↦ rw e (follow-fails a d _)
  | inr (inr (d', e)) ↦ rw e refl
]

handled :
    (a : Answers) (m : MdsMap) (d : Daemon)
    → is_none (
        if leb m.epoch d.mdsmap.epoch
        then some d
        else (take_course a d (identify a m d) >>= λ d₂. some (call (notify_mdsmap m.epoch) d₂)))
      ≡ (not (leb m.epoch d.mdsmap.epoch)
          && (is_onward (identify a m d)
              && not (same d.state m.state)
              && not (is_allowed a d.state m.state)))
handled a m d = elim (Bool-cases (leb m.epoch d.mdsmap.epoch)) [
  | inl old ↦ rw old refl
  | inr new ↦ rw new (
      is_none-map (call (notify_mdsmap m.epoch)) (take_course a d (identify a m d))
      ∙ course-fails a m d)
]

fails_iff : (o : Option Daemon) (b : Bool) → is_none o ≡ b → (o ≡ none) ↔ (b ≡ true)
fails_iff none b h = (λ e. sym h, λ e. refl)
fails_iff (some d) b h = (λ e. absurd (ground (arith, e)), λ e. absurd (ground (arith, h, e)))

handled_iff :
    (a : Answers) (source : Option ℕ) (m : MdsMap) (d : Daemon)
    → (handle_mds_map a source m d ≡ none) ↔ (
        (not (leb m.epoch d.mdsmap.epoch)
          && (is_onward (identify a m (note_peer source m.epoch d))
              && not (same d.state m.state)
              && not (is_allowed a d.state m.state)))
        ≡ true)
unfolding handle_mds_map
handled_iff a none m d = fails_iff _ _ (handled a m d)
handled_iff a (some r) m d = fails_iff _ _ (handled a m (note_peer (some r) m.epoch d))

-- The handling of a map fails an assertion exactly if the map is newer than the last one, the
-- handler does not jump to its end before, and the map changes the state in a way that is not
-- allowed: out of standby replay to another state than replay, to stopping from another state than
-- active, or to creating where the configuration kills the daemon then.
pub handle_mds_map-fails :
    (a : Answers) (source : Option ℕ) (m : MdsMap) (d : Daemon)
    → (handle_mds_map a source m d ≡ none) ↔ (
        (d.mdsmap.epoch < m.epoch)
        × (is_onward (identify a m (note_peer source m.epoch d)) ≡ true)
        × (same d.state m.state ≡ false)
        × (is_allowed a d.state m.state ≡ false))
handle_mds_map-fails a source m d = (
  λ e.
      let all = (handled_iff a source m d).0 e in
      (ground (arith, all), ground (arith, all), ground (arith, all), ground (arith, all)),
  λ (newer, on, changes, not_allowed).
      (handled_iff a source m d).1 (ground (arith, newer, on, changes, not_allowed)),
)
