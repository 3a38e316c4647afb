-- ===== src/Daemon/Waking.antt =====
-- mds/MDS.cc, handle_mds_map: the daemon takes the new map and wakes those that waited for it.
use mds.Prelude.{
  ℕ, ◌<◌, ◌≡◌, refl, subst, sym, ◌∙◌, true, false, ◌&&◌, Option, none, some, List, [], ◌∷◌,
  if◌then◌else◌, inl, inr, Bool-cases, arith, leb, ltb, ◌>>=◌, ap, keep, All,
}
use mds.Daemon.{
  State, clientreplay, active, same, MdsMap, Call, notify_mdsmap, finish, try_rebalance,
  osd_barrier, Waiters, Daemon, Answers, call, is_any_replay, is_late,
}
use mds.Daemon.MapHandling.{
  note_peer, identify, change_state, introduce, newly, recover_waiters, wake, woken, failures,
  recoveries, join, settle, watch, follow, take_course, handle_mds_map,
}
use mds.Daemon.Changes.{goes_on, is_onward}
use mds.Daemon.Keeping.{Keeps, change_state-Keeps}

-- By epoch, as a map's keys are.
abbrev pub IsAscending : List (ℕ × List ℕ) → Type 0
IsAscending [] = Unit
IsAscending (w ∷ ws) = All (λ v. w.0 < v.0) ws × IsAscending ws

abbrev pub later : ℕ → List (ℕ × List ℕ) → List (ℕ × List ℕ)
later e ws = keep (λ w. ltb e w.0) ws

abbrev pub due : ℕ → List (ℕ × List ℕ) → List (ℕ × List ℕ)
due e ws = keep (λ w. leb w.0 e) ws

-- The calls that finish them, the last one on top.
abbrev pub finished_onto : List (ℕ × List ℕ) → List Call → List Call
finished_onto [] cs = cs
finished_onto (w ∷ ws) cs = finished_onto ws (finish w.1 ∷ cs)

later-All : (e : ℕ) (ws : List (ℕ × List ℕ)) → All (λ v. e < v.0) ws → later e ws ≡ ws
later-All e [] h = refl
later-All e (w ∷ ws) h = ground (arith, h.0, later-All e ws h.1)

due-none : (e : ℕ) (ws : List (ℕ × List ℕ)) → All (λ v. e < v.0) ws → due e ws ≡ []
due-none e [] h = refl
due-none e (w ∷ ws) h = ground (arith, h.0, due-none e ws h.1)

above_too :
    (e k : ℕ) (ws : List (ℕ × List ℕ)) → e < k → All (λ v. k < v.0) ws → All (λ v. e < v.0) ws
above_too e k [] l h = tt
above_too e k (w ∷ ws) l h = (omega (arith, l, h.0), above_too e k ws l h.1)

wake-later : (e : ℕ) (ws : List (ℕ × List ℕ)) → IsAscending ws → wake e ws ≡ later e ws
wake-later e [] h = refl
wake-later e (w ∷ ws) h = elim (Bool-cases (leb w.0 e)) [
  | inl past ↦
      let not_later : ltb e w.0 ≡ false = ground (arith, past) in
      rw (past, not_later) (wake-later e ws h.1)
  | inr future ↦
      let is_later : ltb e w.0 ≡ true = ground (arith, future) in
      rw (future, is_later)
        (ap (λ v. w ∷ v) (sym (later-All e ws (above_too e w.0 ws (ground (arith, future)) h.0))))
]

woken-due :
    (e : ℕ) (ws : List (ℕ × List ℕ)) (cs : List Call)
    → IsAscending ws
    → woken e ws cs ≡ finished_onto (due e ws) cs
woken-due e [] cs h = refl
woken-due e (w ∷ ws) cs h = elim (Bool-cases (leb w.0 e)) [
  | inl past ↦ rw past (woken-due e ws (finish w.1 ∷ cs) h.1)
  | inr future ↦ rw (future, due-none e ws (above_too e w.0 ws (ground (arith, future)) h.0)) refl
]

recovered-waiting :
    (rs : List ℕ) (ws : Waiters) → (recover_waiters rs ws).for_mdsmap ≡ ws.for_mdsmap
recovered-waiting [] ws = refl
recovered-waiting (r ∷ rs) ws = recovered-waiting rs _

-- ## The whole handler

-- The daemon has the map and the state that it gives; of the waiters those for later maps are left,
-- and the others are finished in their order, after all that was done before.
pub record IsWoken (m : MdsMap) (ws : List (ℕ × List ℕ)) (d : Daemon) : Type 0 where
  pub states : d.state ≡ m.state
  pub maps : d.mdsmap ≡ m
  pub left : d.waiters.for_mdsmap ≡ later m.epoch ws
  pub told :
      (before : List Call) × (d.calls
        ≡ notify_mdsmap m.epoch
          ∷ (if same m.state active
              then osd_barrier ∷ finished_onto (due m.epoch ws) before
              else finished_onto (due m.epoch ws) before))

settled :
    (m : MdsMap) (ws : List (ℕ × List ℕ)) (d : Daemon)
    → IsAscending ws
    → d.state ≡ m.state
    → d.mdsmap ≡ m
    → d.waiters.for_mdsmap ≡ ws
    → IsWoken m ws (call (notify_mdsmap m.epoch) (settle d))
settled m ws d h s e w =
    let cs : List Call = if is_any_replay d then d.calls else try_rebalance ∷ d.calls in
    record {
      states = s;
      maps = e;
      left =
          ap (λ k. wake k.epoch d.waiters.for_mdsmap) e
          ∙ ap (wake m.epoch) w
          ∙ wake-later m.epoch ws h;
      told = (
        cs,
        ap (λ l. notify_mdsmap m.epoch ∷ (if same d.state active then osd_barrier ∷ l else l))
              (ap (λ k. woken k.epoch d.waiters.for_mdsmap cs) e
                ∙ ap (λ v. woken m.epoch v cs) w
                ∙ woken-due m.epoch ws cs h)
            ∙ ap
                (λ x.
                  notify_mdsmap m.epoch
                  ∷ (if same x active
                      then osd_barrier ∷ finished_onto (due m.epoch ws) cs
                      else finished_onto (due m.epoch ws) cs))
                s,
      );
    }

abbrev Wakes : MdsMap → List (ℕ × List ℕ) → Option Daemon → Type 0
Wakes m ws none = Unit
Wakes m ws (some d) = IsWoken m ws d

watched :
    (a : Answers) (m : MdsMap) (ws : List (ℕ × List ℕ)) (old : State) (before : MdsMap) (d : Daemon)
    (o : Option Daemon)
    → IsAscending ws
    → d.state ≡ m.state
    → d.mdsmap ≡ m
    → d.waiters.for_mdsmap ≡ ws
    → Keeps d o
    → Wakes m ws
        ((o >>= λ x. some (watch a old before x)) >>= λ x. some (call (notify_mdsmap m.epoch) x))
watched a m ws old before d none h s e w k = tt
watched a m ws old before d (some x) h s e w k =
    let x₁ : Daemon = join a old before x in
    let rs : List ℕ =
      if leb (a.number clientreplay) (a.number old) && is_late x₁
      then newly (active ∷ clientreplay ∷ []) before x₁
      else [] in
    settled m ws (failures before (recoveries a old before x₁)) h (k.states ∙ s) (k.maps ∙ e)
      (recovered-waiting rs x.waiters ∙ k.waiting ∙ w)

followed :
    (a : Answers) (m : MdsMap) (ws : List (ℕ × List ℕ)) (before now : Daemon)
    → IsAscending ws
    → now.state ≡ m.state
    → now.mdsmap ≡ m
    → now.waiters.for_mdsmap ≡ ws
    → Wakes m ws (follow a before now >>= λ d. some (call (notify_mdsmap m.epoch) d))
followed a m ws before now h s e w =
    let d : Daemon = introduce a before.whoami before.state now in
    watched a m ws before.state before.mdsmap d _ h s e w (changed a before.state d)
  where
    changed :
        (a : Answers) (old : State) (d : Daemon)
        → Keeps d (if same old d.state then some d else change_state a old d)
    changed a old d = elim (Bool-cases (same old d.state)) [
      | inl still ↦ rw still record { states = refl; maps = refl; waiting = refl }
      | inr moved ↦ rw moved (change_state-Keeps a old d)
    ]

course-Wakes :
    (a : Answers) (m : MdsMap) (d : Daemon)
    → IsAscending d.waiters.for_mdsmap
    → is_onward (identify a m d) ≡ true
    → Wakes m d.waiters.for_mdsmap
        (take_course a d (identify a m d) >>= λ x. some (call (notify_mdsmap m.epoch) x))
course-Wakes a m d h on = elim (goes_on a m d) [
  | inl e ↦ rw e (followed a m d.waiters.for_mdsmap d _ h refl refl refl)
  | inr (inl e) ↦ rw e (followed a m d.waiters.for_mdsmap d _ h refl refl refl)
  | inr (inr (d', e)) ↦ absurd (ground (arith, on, ap is_onward e))
]

handled-Wakes :
    (a : Answers) (source : Option ℕ) (m : MdsMap) (d : Daemon)
    → d.mdsmap.epoch < m.epoch
    → IsAscending d.waiters.for_mdsmap
    → is_onward (identify a m (note_peer source m.epoch d)) ≡ true
    → Wakes m d.waiters.for_mdsmap (handle_mds_map a source m d)
unfolding handle_mds_map
handled-Wakes a none m d newer h on =
    let new : leb m.epoch d.mdsmap.epoch ≡ false = ground (arith, newer) in
    rw new (course-Wakes a m d h on)
handled-Wakes a (some r) m d newer h on =
    let new : leb m.epoch d.mdsmap.epoch ≡ false = ground (arith, newer) in
    rw new (course-Wakes a m (note_peer (some r) m.epoch d) h on)

-- When a map is newer than the last one, the handler does not jump to its end, no assertion fails
-- and the waiters for maps are in the order of their epochs: the daemon then has the map and the
-- state in it, the waiters for later maps wait on, and all others are finished, in their order and
-- after all else but the barrier of an active daemon and the beacon's copy of the map.
pub handle_mds_map-wakes :
    (a : Answers) (source : Option ℕ) (m : MdsMap) (d d' : Daemon)
    → d.mdsmap.epoch < m.epoch
    → IsAscending d.waiters.for_mdsmap
    → is_onward (identify a m (note_peer source m.epoch d)) ≡ true
    → handle_mds_map a source m d ≡ some d'
    → IsWoken m d.waiters.for_mdsmap d'
handle_mds_map-wakes a source m d d' newer h on e =
    subst (Wakes m d.waiters.for_mdsmap) e (handled-Wakes a source m d newer h on)
