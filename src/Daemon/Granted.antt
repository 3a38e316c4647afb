-- ===== src/Daemon/Granted.antt =====
-- mds/MDS.cc, handle_mds_map: a map in which the monitor grants the state that the daemon asked
-- for.
use mds.Prelude.{
  ℕ, ◌+◌, ◌<◌, ◌≡◌, refl, ◌∙◌, Bool, true, false, ◌&&◌, Option, none, some, List, [], ◌∷◌,
  if◌then◌else◌, inl, inr, Bool-cases, arith, leb, ◌>>=◌, ap, count_if, keep,
}
use mds.Prelude.Int.{ℤ}
use mds.Daemon.{
  State, standby, standby_replay, clientreplay, active, same, MdsMap, Call, notify_mdsmap, finish,
  try_rebalance, Daemon, Answers, call, is_any_replay, is_late,
}
use mds.Dir.Freeze.{eq_ℤ}
use mds.Daemon.MapHandling.{
  mark_removed, onward, adopt, is_negative, identify, change_state, introduce, is_new, newly,
  recover_calls, fail_calls, restarted, stop_calls, woken, failures, recoveries, join, settle,
  watch, follow, handle_mds_map,
}
use mds.Daemon.Starting.{
  is_rollback, rollbacks, rolls_back, is_recovering, IsStarted, change_state_lem,
}

-- The monitor's map is newer than the last one, can be read, and has the daemon in the state that
-- it asked for.
pub record Grants (m : MdsMap) (d : Daemon) : Type 0 where
  pub newer : d.mdsmap.epoch < m.epoch
  pub writeable : m.is_writeable ≡ true
  pub granted : m.state ≡ d.want_state
  pub ranked : is_negative m.rank ≡ false

-- ## The loops over the other servers roll nothing back

counted-mark_removed :
    (m : MdsMap) (is : List (ℕ × ℕ)) (cs : List Call)
    → count_if is_rollback (mark_removed m is cs) ≡ count_if is_rollback cs
counted-mark_removed m [] cs = refl
counted-mark_removed m (i ∷ is) cs = counted-mark_removed m is _ ∙ ground arith

counted-recover_calls :
    (b : Bool) (rs : List ℕ) (cs : List Call)
    → count_if is_rollback (recover_calls b rs cs) ≡ count_if is_rollback cs
counted-recover_calls b [] cs = refl
counted-recover_calls b (r ∷ rs) cs = counted-recover_calls b rs _ ∙ ground arith

counted-fail_calls :
    (old : MdsMap) (w : ℤ) (rs : List ℕ) (cs : List Call)
    → count_if is_rollback (fail_calls old w rs cs) ≡ count_if is_rollback cs
counted-fail_calls old w [] cs = refl
counted-fail_calls old w (r ∷ rs) cs = counted-fail_calls old w rs _ ∙ ground arith

counted-stop_calls :
    (rs : List ℕ) (cs : List Call)
    → count_if is_rollback (stop_calls rs cs) ≡ count_if is_rollback cs
counted-stop_calls [] cs = refl
counted-stop_calls (r ∷ rs) cs = counted-stop_calls rs _ ∙ ground arith

counted-woken :
    (e : ℕ) (ws : List (ℕ × List ℕ)) (cs : List Call)
    → count_if is_rollback (woken e ws cs) ≡ count_if is_rollback cs
counted-woken e [] cs = refl
counted-woken e (w ∷ ws) cs = elim (Bool-cases (leb w.0 e)) [
  | inl h ↦ rw h (counted-woken e ws (finish w.1 ∷ cs) ∙ ground arith)
  | inr h ↦ rw h refl
]

rollbacks-failures : (old : MdsMap) (d : Daemon) → rollbacks (failures old d) ≡ rollbacks d
rollbacks-failures old d =
    let m : MdsMap = d.mdsmap in
    let failed : List Call = fail_calls old d.whoami (keep (is_new old.failed) m.failed) d.calls in
    let gone : List Call = fail_calls old d.whoami (restarted old m.insts) failed in
    let kept : count_if is_rollback gone ≡ rollbacks d =
      counted-fail_calls old d.whoami (restarted old m.insts) failed
      ∙ counted-fail_calls old d.whoami (keep (is_new old.failed) m.failed) d.calls in
    elim (Bool-cases (is_late d)) [
      | inl h ↦
          rw h (counted-stop_calls (keep (is_new old.stopped_ranks) m.stopped_ranks) gone ∙ kept)
      | inr h ↦ rw h kept
    ]

rollbacks-settle : (d : Daemon) → rollbacks (settle d) ≡ rollbacks d
rollbacks-settle d =
    let cs : List Call = if is_any_replay d then d.calls else try_rebalance ∷ d.calls in
    ground (arith, counted-woken d.mdsmap.epoch d.waiters.for_mdsmap cs)

rollbacks-watch :
    (a : Answers) (s : State) (old : MdsMap) (d : Daemon)
    → rollbacks (watch a s old d) ≡ rollbacks d
rollbacks-watch a s old d =
    let d₁ : Daemon = join a s old d in
    let d₂ : Daemon = recoveries a s old d₁ in
    let rs : List ℕ =
      if leb (a.number clientreplay) (a.number s) && is_late d₁
      then newly (active ∷ clientreplay ∷ []) old d₁
      else [] in
    rollbacks-settle (failures old d₂)
    ∙ rollbacks-failures old d₂
    ∙ counted-recover_calls (eq_ℤ d₁.mdsmap.tableserver d₁.whoami) rs d₁.calls
    ∙ ground arith

rollbacks-adopt : (m : MdsMap) (d : Daemon) → rollbacks (adopt m d) ≡ rollbacks d
rollbacks-adopt m d = counted-mark_removed m d.mdsmap.infos _ ∙ ground arith

-- ## The map

granted-onward :
    (a : Answers) (m : MdsMap) (d : Daemon)
    → m.is_writeable ≡ true
    → is_recovering m.state ≡ true
    → is_negative m.rank ≡ false
    → identify a m d ≡ onward (adopt m d)
unfolding identify
granted-onward a m d w r n =
    let no_standby : same m.state standby ≡ false = ground (arith, r) in
    let no_replay : same m.state standby_replay ≡ false = ground (arith, r) in
    rw (w, no_standby, no_replay, n) refl

onward-handled :
    (a : Answers) (m : MdsMap) (d d' : Daemon)
    → d.mdsmap.epoch < m.epoch
    → identify a m d ≡ onward d'
    → handle_mds_map a none m d ≡ (follow a d d' >>= λ d₂. some (call (notify_mdsmap m.epoch) d₂))
unfolding handle_mds_map
onward-handled a m d d' newer e =
    let late : leb m.epoch d.mdsmap.epoch ≡ false = ground (arith, newer) in rw (late, e) refl

otherwise :
    (b : Bool) (o : Option Daemon) (x d : Daemon) (f : Daemon → Daemon)
    → b ≡ false
    → o ≡ some d
    → ((if b then some x else o) >>= λ y. some (f y)) ≡ some (f d)
otherwise b o x d f h e = rw (h, e) refl

last_state-adopt :
    (m : MdsMap) (d : Daemon) → same d.state m.state ≡ false → (adopt m d).last_state ≡ d.state
last_state-adopt m d h =
    let moves : same m.state d.state ≡ false = ground (arith, h) in rw moves refl

rollbacks-introduce :
    (a : Answers) (w : ℤ) (s : State) (d : Daemon) → rollbacks (introduce a w s d) ≡ rollbacks d
rollbacks-introduce a w s d = ground arith

pub arrives :
    (a : Answers) (m : MdsMap) (d : Daemon) (s s' : State)
    → d.state ≡ s
    → d.want_state ≡ s'
    → d.standby_replaying ≡ false
    → Grants m d
    → is_recovering s' ≡ true
    → same s s' ≡ false
    → same s standby_replay ≡ false
    → (d' : Daemon) × (handle_mds_map a none m d ≡ some d') × IsStarted s' (rolls_back s s') d d'
arrives a m d s s' here wants passes g r moves n =
    let now : Daemon = adopt m d in
    let d₀ : Daemon = introduce a d.whoami d.state now in
    let moved : same d.state m.state ≡ false = rw (here, g.granted, wants) moves in
    let left : same d.state standby_replay ≡ false = rw here n in
    let q = change_state_lem a d.state s' d₀ (g.granted ∙ wants) passes r left in
    let d₂ : Daemon = call (notify_mdsmap m.epoch) (watch a d.state d.mdsmap q.0) in
    let counted : rollbacks d₂ ≡ rollbacks d + rolls_back s s' =
      ground arith
      ∙ rollbacks-watch a d.state d.mdsmap q.0
      ∙ q.2.rolled
      ∙ ap (λ l. rollbacks d₀ + rolls_back l s') (last_state-adopt m d moved ∙ here)
      ∙ ap (λ k. k + rolls_back s s')
          (rollbacks-introduce a d.whoami d.state now ∙ rollbacks-adopt m d) in
    (
      d₂,
      onward-handled a m d now g.newer
            (granted-onward a m d g.writeable (rw (g.granted, wants) r) g.ranked)
          ∙ ap (λ o. o >>= λ y. some (call (notify_mdsmap m.epoch) y))
              (otherwise (same d.state m.state) (change_state a d.state d₀) d₀ q.0
                (watch a d.state d.mdsmap) moved q.1),
      record {
        at = record { at = q.2.at.at; wants = q.2.at.wants; passes = q.2.at.passes };
        rolled = counted;
      },
    )
