-- ===== src/Sessions/Logged.antt =====
-- mds/Server.cc, sessions: a journaled opening or closing that is safe.
use mds.Prelude.{
  ℕ, ◌+◌, ◌≡◌, inl, inr, refl, subst, Bool, true, false, ◌||◌, Option, some, List, ◌∷◌, ◌==◌, arith,
  Bool-cases, length,
}
use mds.Sessions.{
  State, state_closed, state_open, code, Session, Entry, logged, World, call, call_if, set_state,
  session_logged, set_in_map, touch_session, remove_session, mark_disposable, mark_down,
  clear_session, send_open, send_close, send_force_ro, kill_caps, apply_release_ids,
  leave_reconnect,
}
use mds.Sessions.Queue.{
  view, is_ready, opens, closes, forced_count, Queued, Queued-free, Queued-unmapped, unheld,
}
use mds.Sessions.Running.{Fine, Good, Renumbers, ready_lem}

module _ (next_seq : State → ℕ → State → ℕ) (cleared_seq : ℕ → ℕ)
    (renumbers : Renumbers next_seq) where
  -- An entry that changes nothing.
  skipped :
      (s : Session) (e : Entry) (es : List Entry) (version projected : ℕ)
      → opens s.state_seq e ≡ false
      → closes s.state_seq e ≡ false
      → Fine s (e ∷ es) version projected
      → Fine s es (version + 1) projected
  skipped s e es version projected unopened unclosed g = record {
    connected = g.connected;
    mapped = g.mapped;
    counted = ground (arith, g.counted);
    accounted = omega (arith, g.accounted);
    queued = subst (λ b. Queued (view s) b es) (ground (arith, unopened)) g.queued.1;
    opening = λ h. ground (arith, g.opening h, unopened);
    closing = λ h. ground (arith, g.closing h, unclosed);
  }

  -- An entry that is safe leaves the others.
  abbrev pub Finishes : World → Option World → Type 0
  Finishes w o = (w' : World) × (o ≡ some w') × Good w' × (w'.journal ≡ w.journal)

  -- A session that is closed and forgotten.
  shut_lem :
      (s : Session) (b : Bool) (es : List Entry) (version projected : ℕ)
      → (code s.state == 3) ≡ true
      → s.has_connection ≡ true
      → forced_count es ≡ 0
      → projected ≡ version + length es
      → Queued (view s) b es
      → Fine
          (record s {
            state = state_closed;
            state_seq = next_seq s.state s.state_seq state_closed;
            in_map = false;
            push_seq = cleared_seq s.push_seq;
          })
          es
          version
          projected
  shut_lem s b es version projected h connected free accounted queued =
      let n = next_seq s.state s.state_seq state_closed in
      let s' : Session = record s { state = state_closed; state_seq = n; in_map = false } in
      record {
        connected = connected;
        mapped = λ k. absurd (ground (arith, k));
        counted = omega (arith, free);
        accounted = accounted;
        queued =
            Queued-free (view s) (view s') b (is_ready (view s')) es
              (renumbers s.state state_closed s.state_seq (ground (arith, h))) free queued;
        opening = λ k. absurd (omega (arith, k));
        closing = λ k. absurd (omega (arith, k));
      }

  -- One that is killed and forgotten.
  gone_lem :
      (s : Session) (es : List Entry) (version projected : ℕ)
      → (code s.state == 5) ≡ true
      → s.has_connection ≡ true
      → forced_count es ≡ 0
      → projected ≡ version + length es
      → Queued (view s) (is_ready (view s)) es
      → Fine (record s { in_map = false }) es version projected
  gone_lem s es version projected h connected free accounted queued = record {
    connected = connected;
    mapped = λ k. absurd (ground (arith, k, h));
    counted = omega (arith, free);
    accounted = accounted;
    queued = Queued-unmapped (view s) (is_ready (view s)) es free queued;
    opening = λ k. absurd (ground (arith, k, h));
    closing = λ k. absurd (ground (arith, k, h));
  }

  pub session_logged_lem :
      (q : ℕ) (o r : Bool) (w : World)
      → Fine w.session (logged q o r ∷ w.journal) w.version w.projected
      → Finishes w (session_logged next_seq cleared_seq true q o r w)
  unfolding session_logged
  session_logged_lem q true r w g =
      let s = w.session in
      let e = logged q true r in
      let applied = call_if r apply_release_ids w in
      let greeted =
        call send_open (call touch_session (set_state next_seq cleared_seq state_open applied)) in
      elim (Bool-cases (s.state_seq == q)) [
        | inr changed ↦ (
          record applied { version = w.version + 1 },
          rw changed refl,
          skipped s e w.journal w.version w.projected (ground (arith, changed)) refl g,
          refl,
        )
        | inl same ↦
            let waits : code s.state ≡ 1 = g.queued.0.1 (ground (arith, same)) in
            let is_opening : (code s.state == 1) ≡ true = ground (arith, waits) in
            (
              record (call_if w.is_readonly send_force_ro greeted) { version = w.version + 1 },
              rw (same, is_opening, g.connected) refl,
              ready_lem next_seq cleared_seq renumbers state_open s
                  (is_ready (view s) || opens s.state_seq e) w.journal (w.version + 1) w.projected
                  refl (ground (arith, waits)) (g.mapped (ground (arith, waits))) g.connected
                  (omega (arith, g.counted)) (omega (arith, g.accounted)) g.queued.1,
              refl,
            )
      ]
  session_logged_lem q false r w g =
      let s = w.session in
      let e = logged q false r in
      let applied = call_if r apply_release_ids w in
      let left = call leave_reconnect (call kill_caps applied) in
      let shut =
        set_state next_seq cleared_seq state_closed
          (call send_close (call_if s.has_connection mark_disposable left)) in
      let cleared =
        call clear_session
          (record shut { session = record shut.session { push_seq = cleared_seq s.push_seq } }) in
      elim (Bool-cases (s.state_seq == q)) [
        | inr changed ↦ (
          record applied { version = w.version + 1 },
          rw changed refl,
          skipped s e w.journal w.version w.projected refl (ground (arith, changed)) g,
          refl,
        )
        | inl same ↦
            let ends : (code s.state == 3 || code s.state == 5) ≡ true =
              g.queued.0.1 (ground (arith, same)) in
            let free : forced_count w.journal ≡ 0 =
              unheld (view s) (is_ready (view s) || opens s.state_seq e) w.journal
                (ground (arith, ends)) g.queued.1 in
            elim (Bool-cases (code s.state == 3)) [
              | inl h ↦ (
                record (call remove_session (set_in_map false cleared)) { version = w.version + 1 },
                rw (same, h) refl,
                shut_lem s (is_ready (view s) || opens s.state_seq e) w.journal (w.version + 1)
                    w.projected h g.connected free (omega (arith, g.accounted)) g.queued.1,
                refl,
              )
              | inr h ↦ (
                record (call remove_session
                    (set_in_map false (call_if s.has_connection mark_down left))) {
                      version = w.version + 1;
                    },
                ground (arith, same, h, ends),
                gone_lem s w.journal (w.version + 1) w.projected (ground (arith, h, ends))
                    g.connected free (omega (arith, g.accounted))
                    (subst (λ b. Queued (view s) b w.journal) (ground arith) g.queued.1),
                refl,
              )
            ]
      ]
