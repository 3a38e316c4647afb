-- ===== src/Sessions/Forced.antt =====
-- mds/Server.cc, sessions: forced openings.
use mds.Prelude.{
  ℕ, ◌+◌, ◌-◌, ◌<◌, ◌≡◌, inl, inr, refl, subst, Bool, true, false, ◌||◌, Option, none, some, [],
  ◌∷◌, ◌++◌, ◌==◌, arith, if◌then◌else◌, Bool-cases, length-append,
}
use mds.Sessions.{
  State, state_closed, state_opening, state_open, state_closing, state_killing, code, Session,
  forced, World, in_state, call, call_if, set_state, force_open, finish_force_open, touch_session,
  send_open, send_force_ro,
}
use mds.Sessions.Queue.{
  view, is_ready, Held, opens, closes, any, Queued, Queued-free, unheld, Queued-append, any-append,
  forced_count-append,
}
use mds.Sessions.Running.{Fine, Good, Renumbers, code_bound, Succeeds, ready_lem}
use mds.Sessions.Logged.{Finishes}

module _ (next_seq : State → ℕ → State → ℕ) (cleared_seq : ℕ → ℕ)
    (renumbers : Renumbers next_seq) where
  pub force_open_lem :
      (d : Bool) (w : World)
      → Good w
      → Succeeds next_seq cleared_seq renumbers (force_open next_seq cleared_seq d w)
  unfolding force_open
  force_open_lem d w g =
      let s = w.session in
      elim (Bool-cases s.in_map) [
        | inr other ↦ (w, rw other refl, g)
        | inl known ↦
            elim (Bool-cases
              (in_state state_closed w || in_state state_closing w || in_state state_killing w)) [
                | inl gone ↦
                    let n = next_seq s.state s.state_seq state_opening in
                    let e = forced (some n) d in
                    let newer : s.state_seq < n =
                      renumbers s.state state_opening s.state_seq (ground (arith, gone)) in
                    let free =
                      unheld (view s) (is_ready (view s)) w.journal (ground (arith, gone))
                        g.queued in
                    let s' : Session = record s {
                      state = state_opening;
                      state_seq = n;
                      importing = s.importing + 1;
                    } in
                    (
                      record w {
                        session = s';
                        journal = w.journal ++ e ∷ [];
                        projected = w.projected + 1;
                      },
                      rw (known, gone) refl,
                      record {
                        connected = g.connected;
                        mapped = λ h. known;
                        counted = omega (arith, forced_count-append w.journal e, free);
                        accounted = omega (arith, g.accounted, length-append w.journal (e ∷ []));
                        queued =
                            Queued-append (view s') false w.journal e
                              (Queued-free (view s) (view s') (is_ready (view s)) false w.journal
                                newer free g.queued)
                              (omega arith, (known, refl), λ h. refl);
                        opening = λ h. ground (arith, any-append (opens n) w.journal e);
                        closing = λ h. absurd (omega (arith, h));
                      },
                    )
                | inr live ↦
                    let e = forced none d in
                    let held : Held (view s) = (known, ground (arith, live, code_bound s.state)) in
                    let soon : (is_ready (view s) || any (opens s.state_seq) w.journal) ≡ true =
                      elim (Bool-cases (code s.state == 1)) [
                        | inl h ↦ ground (arith, g.opening (ground (arith, h)))
                        | inr h ↦ ground (arith, h, held.1)
                      ] in
                    (
                      record w {
                        session = record s { importing = s.importing + 1 };
                        journal = w.journal ++ e ∷ [];
                        projected = w.projected + 1;
                      },
                      ground (arith, known, live, held.1),
                      record {
                        connected = g.connected;
                        mapped = λ h. known;
                        counted = omega (arith, forced_count-append w.journal e, g.counted);
                        accounted = omega (arith, g.accounted, length-append w.journal (e ∷ []));
                        queued =
                            Queued-append (view s) (is_ready (view s)) w.journal e g.queued
                              (held, soon);
                        opening = λ h.
                            ground (arith, g.opening h, any-append (opens s.state_seq) w.journal e);
                        closing = λ h.
                            ground
                              (arith, g.closing h, any-append (closes s.state_seq) w.journal e);
                      },
                    )
              ]
      ]

  pub finish_force_open_lem :
      (q : Option ℕ) (d : Bool) (w : World)
      → Fine w.session (forced q d ∷ w.journal) w.version w.projected
      → Finishes next_seq cleared_seq renumbers w (finish_force_open next_seq cleared_seq q d w)
  unfolding finish_force_open
  finish_force_open_lem none d w g =
      let s = w.session in
      let (held, ready) = g.queued.0 in
      let is_open : (code s.state == 2 || code s.state == 4) ≡ true = ready in
      let left = if d then s.importing - 1 else s.importing in
      (
        record w { session = record s { importing = left }; version = w.version + 1 },
        rw (held.0, is_open) refl,
        record {
          connected = g.connected;
          mapped = λ k. held.0;
          counted = ground (arith, g.counted);
          accounted = omega (arith, g.accounted);
          queued = subst (λ b. Queued (view s) b w.journal) (ground (arith, ready)) g.queued.1;
          opening = λ k. absurd (ground (arith, k, ready));
          closing = λ k. absurd (ground (arith, k, ready));
        },
        refl,
      )
  finish_force_open_lem (some q) d w g =
      let s = w.session in
      let (old, held, waits) = g.queued.0 in
      let e = forced (some q) d in
      let left = if d then s.importing - 1 else s.importing in
      elim (Bool-cases (s.state_seq == q)) [
        | inl same ↦
            let greeted =
              call send_open (call touch_session (set_state next_seq cleared_seq state_open w)) in
            let opened = call_if w.is_readonly send_force_ro greeted in
            (
              record opened {
                session = record opened.session { importing = left };
                version = w.version + 1;
              },
              rw (held.0, same) refl,
              ready_lem next_seq cleared_seq renumbers state_open (record s { importing = left })
                  (is_ready (view s) || opens s.state_seq e) w.journal (w.version + 1) w.projected
                  refl (ground (arith, waits (ground (arith, same)))) held.0 g.connected
                  (ground (arith, g.counted)) (omega (arith, g.accounted)) g.queued.1,
              refl,
            )
        | inr changed ↦ (
          record w { session = record s { importing = left }; version = w.version + 1 },
          rw (held.0, changed) refl,
          record {
            connected = g.connected;
            mapped = g.mapped;
            counted = ground (arith, g.counted);
            accounted = omega (arith, g.accounted);
            queued = subst (λ b. Queued (view s) b w.journal) (ground (arith, changed)) g.queued.1;
            opening = λ k. ground (arith, g.opening k, changed);
            closing = λ k. ground (arith, g.closing k);
          },
          refl,
        )
      ]
