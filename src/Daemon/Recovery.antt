-- ===== src/Daemon/Recovery.antt =====
-- mds/MDS.cc: from the replay of the journal to the active state, while the monitors grant what is
-- asked for.
use mds.Prelude.{
  ℕ, zero, suc, ◌+◌, ◌<◌, ◌≤◌, ◌≡◌, refl, subst, ◌∙◌, Bool, true, false, ◌&&◌, ◌||◌, Option, none,
  some, [], ◌∷◌, ◌==◌, if◌then◌else◌, inl, inr, Bool-cases, arith, ◌>>=◌, ap,
}
use mds.Daemon.{
  State, creating, starting, replay, resolve, reconnect, rejoin, clientreplay, active, stopping,
  same, MdsMap, wipe_sessions, wipe_prealloc, skip_inos, trim_tail, set_writeable, Daemon, Answers,
  call, call_if, is_in, request_state,
}
use mds.Daemon.Phases.{
  creating_done, replay_done, starting_done, resolve_done, reconnect_done, rejoin_done,
  clientreplay_done, stopping_done,
}
use mds.Daemon.MapHandling.{handle_mds_map}
use mds.Daemon.Starting.{rollbacks, IsAt, rolls_back, is_recovering, IsStarted}
use mds.Daemon.Granted.{Grants, arrives}

-- What the end of the work in a state asks for.
unfoldable pub finish_state : Answers → Daemon → Option Daemon
finish_state a d = elim d.state [
  | creating ↦ some (creating_done d)
  | starting ↦ starting_done d
  | replay ↦ replay_done a d
  | resolve ↦ some (resolve_done d)
  | reconnect ↦ some (reconnect_done d)
  | rejoin ↦ some (rejoin_done a d)
  | clientreplay ↦ some (clientreplay_done d)
  | stopping ↦ some (stopping_done d)
  | _ ↦ some d
]

-- The work of a state ends and the monitor sends the next map, again and again until the daemon is
-- active.
unfoldable pub rounds : Answers → (monitor : Daemon → MdsMap) → ℕ → Daemon → Option Daemon
unfolding finish_state handle_mds_map
rounds a monitor zero d = some d
rounds a monitor (suc n) d =
    if same d.state active
    then some d
    else (finish_state a d >>= λ d₁. handle_mds_map a none (monitor d₁) d₁ >>= rounds a monitor n)

-- The daemon has read its journal, in the format of today, and has subtrees.
pub record IsSound (a : Answers) : Type 0 where
  pub is_read : a.is_journal_read ≡ true
  pub is_new_format : a.is_old_format ≡ false
  pub has_tree : a.has_subtrees ≡ true

-- The end of the work in a state, which asks for another.
record IsAsking (s s' : State) (d d' : Daemon) : Type 0 where
  state : d'.state ≡ s
  want : d'.want_state ≡ s'
  passing : d'.standby_replaying ≡ false
  rolled : rollbacks d' ≡ rollbacks d

turn :
    (b : Bool) (o : Option Daemon) (x d d' : Daemon) (f g : Daemon → Option Daemon)
    → b ≡ false
    → o ≡ some d
    → f d ≡ some d'
    → (if b then some x else (o >>= λ y. f y >>= g)) ≡ g d'
turn b o x d d' f g h e k = rw (h, e, k) refl

is-active : (s : State) → same s active ≡ true → s ≡ active
is-active active h = refl
is-active _ h = absurd (ground (arith, h))

-- How many rounds are left, at most, and how often the log is to be rolled in them.
abbrev pub rounds_left : State → ℕ
rounds_left replay = 5
rounds_left resolve = 4
rounds_left reconnect = 3
rounds_left rejoin = 2
rounds_left clientreplay = 1
rounds_left _ = 0

abbrev pub to_roll_back : State → ℕ
to_roll_back replay = 1
to_roll_back _ = 0

abbrev pub is_coming : State → Bool
is_coming s = is_in s (replay ∷ resolve ∷ reconnect ∷ rejoin ∷ clientreplay ∷ [])

-- The states in the order of the recovery.
record IsNext (s s' : State) : Type 0 where
  comes : is_recovering s' ≡ true
  moves : same s s' ≡ false
  fewer : rounds_left s' < rounds_left s
  adds : rolls_back s s' + to_roll_back s' ≡ to_roll_back s

module _ (a : Answers) (monitor : Daemon → MdsMap) (grants : (d : Daemon) → Grants (monitor d) d)
    (sound : IsSound a) where
  -- The state that follows.
  abbrev next : State → Daemon → State
  next replay d =
      if d.mdsmap.num_in == 1 && (elim d.mdsmap.failed [ [] ↦ true | _ ∷ _ ↦ false ])
      then reconnect
      else resolve
  next resolve d = reconnect
  next reconnect d = rejoin
  next rejoin d = if a.has_replay_queue then clientreplay else active
  next _ d = active

  ends :
      (s : State) (d : Daemon)
      → IsAt s d
      → is_coming s ≡ true
      → (d' : Daemon) × (finish_state a d ≡ some d') × IsAsking s (next s d) d d'
  unfolding finish_state
  ends replay d h r = (
    request_state (next replay d) (
        call_if a.skips_inos skip_inos (
          call_if a.wipes_prealloc wipe_prealloc
            (call_if a.wipes_sessions wipe_sessions (call trim_tail (call set_writeable d))))),
    rw (h.at, h.passes, sound.is_read, sound.is_new_format) refl,
    record { state = h.at; want = refl; passing = h.passes; rolled = ground arith },
  )
  ends resolve d h r = (
    request_state reconnect d,
    rw h.at refl,
    record { state = h.at; want = refl; passing = h.passes; rolled = ground arith },
  )
  ends reconnect d h r = (
    request_state rejoin d,
    rw h.at refl,
    record { state = h.at; want = refl; passing = h.passes; rolled = ground arith },
  )
  ends rejoin d h r = (
    request_state (next rejoin d) d,
    rw (h.at, sound.has_tree) refl,
    record { state = h.at; want = refl; passing = h.passes; rolled = ground arith },
  )
  ends clientreplay d h r = (
    request_state active d,
    rw h.at refl,
    record { state = h.at; want = refl; passing = h.passes; rolled = ground arith },
  )
  ends _ d h r = absurd (ground (arith, r))

  one_round :
      (s : State) (d : Daemon)
      → IsAt s d
      → is_coming s ≡ true
      → is_recovering (next s d) ≡ true
      → same s (next s d) ≡ false
      → (d' : Daemon) × ((n : ℕ) → rounds a monitor (suc n) d ≡ rounds a monitor n d')
        × IsStarted (next s d) (rolls_back s (next s d)) d d'
  unfolding rounds
  one_round s d h r ok moves =
      let e = ends s d h r in
      let q =
        arrives a (monitor e.0) e.0 s (next s d) e.2.state e.2.want e.2.passing (grants e.0) ok
          moves (ground (arith, r)) in
      (
        q.0,
        λ n.
            turn (same d.state active) (finish_state a d) d e.0 q.0
              (λ y. handle_mds_map a none (monitor y) y) (rounds a monitor n)
              (rw h.at (ground (arith, r))) e.1 q.1,
        record {
          at = q.2.at;
          rolled = q.2.rolled ∙ ap (λ k. k + rolls_back s (next s d)) e.2.rolled;
        },
      )

  from_active : (n : ℕ) (d : Daemon) → IsAt active d → rounds a monitor n d ≡ some d
  unfolding rounds
  from_active zero d h = refl
  from_active (suc n) d h = rw h.at refl

  next-IsNext : (s : State) (d : Daemon) → is_coming s ≡ true → IsNext s (next s d)
  next-IsNext replay d h =
      elim (Bool-cases
        (d.mdsmap.num_in == 1 && (elim d.mdsmap.failed [ [] ↦ true | _ ∷ _ ↦ false ]))) [
          | inl e ↦ rw e record { comes = refl; moves = refl; fewer = omega arith; adds = refl }
          | inr e ↦ rw e record { comes = refl; moves = refl; fewer = omega arith; adds = refl }
        ]
  next-IsNext resolve d h = record { comes = refl; moves = refl; fewer = omega arith; adds = refl }
  next-IsNext reconnect d h = record {
    comes = refl;
    moves = refl;
    fewer = omega arith;
    adds = refl;
  }
  next-IsNext rejoin d h = elim (Bool-cases a.has_replay_queue) [
    | inl e ↦ rw e record { comes = refl; moves = refl; fewer = omega arith; adds = refl }
    | inr e ↦ rw e record { comes = refl; moves = refl; fewer = omega arith; adds = refl }
  ]
  next-IsNext clientreplay d h = record {
    comes = refl;
    moves = refl;
    fewer = omega arith;
    adds = refl;
  }
  next-IsNext _ d h = absurd (ground (arith, h))

  arrived :
      (n : ℕ) (s : State) (d : Daemon)
      → IsAt s d
      → same s active ≡ true
      → (d' : Daemon) × (rounds a monitor n d ≡ some d')
        × IsAt active d'
        × (rollbacks d' ≡ rollbacks d + to_roll_back s)
  arrived n s d h e =
      let now : s ≡ active = is-active s e in
      let here : IsAt active d = subst (λ x. IsAt x d) now h in
      (d, from_active n d here, here, rw now (omega arith))

  -- In any state of the recovery, in which the daemon asks for no other yet and no replay as a
  -- standby is behind it, as many rounds as are left make it active, and uncommitted fragmentations
  -- are rolled back once if the journal was still being replayed, and else not again. The journal
  -- has been read when its replay ends and has the format of today, the daemon has subtrees, and
  -- each map of the monitor is newer, can be read, gives the daemon a rank and has it in the state
  -- that it asked for.
  pub recovers_within :
      (n : ℕ) (s : State) (d : Daemon)
      → IsAt s d
      → (is_coming s || same s active) ≡ true
      → rounds_left s ≤ n
      → (d' : Daemon) × (rounds a monitor n d ≡ some d')
        × IsAt active d'
        × (rollbacks d' ≡ rollbacks d + to_roll_back s)
  recovers_within zero s d h r enough = elim (Bool-cases (is_coming s)) [
    | inl coming ↦ absurd (omega (arith, (next-IsNext s d coming).fewer, enough))
    | inr there ↦ arrived zero s d h (ground (arith, r, there))
  ]
  recovers_within (suc n) s d h r enough = elim (Bool-cases (is_coming s)) [
    | inl coming ↦
        let k = next-IsNext s d coming in
        let q = one_round s d h coming k.comes k.moves in
        let later =
          recovers_within n (next s d) q.0 q.2.at (ground (arith, k.comes))
            (omega (arith, k.fewer, enough)) in
        (later.0, q.1 n ∙ later.1, later.2, omega (arith, later.3, q.2.rolled, k.adds))
    | inr there ↦ arrived (suc n) s d h (ground (arith, r, there))
  ]
