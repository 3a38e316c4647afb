-- ===== src/Sessions/Running.antt =====
-- mds/Server.cc, sessions: the invariant of a session and its entries in the log.
use mds.Prelude.{
  ℕ, ◌+◌, ◌≤◌, ◌<◌, ◌≡◌, inl, inr, refl, Bool, true, false, not, ◌&&◌, ◌||◌, Option, some, List, [],
  ◌∷◌, ◌==◌, arith, ltb, Bool-cases, length, length-append,
}
use mds.Sessions.{
  State, state_closed, state_opening, state_open, state_closing, state_stale, state_killing, code,
  Session, Entry, logged, World, in_state, is_importing, call, submit, set_state, request_open,
  request_renewcaps, journal_close_session, request_close, kill_session, find_stale, autoclose,
  add_session, touch_session, set_in_map, call_if,
}
use mds.Sessions.Queue.{
  view, is_ready, opens, closes, any, forced_count, Queued, Queued-ready, Queued-free, unheld,
  Queued-append, any-append, forced_count-append,
}

-- The forced openings are counted by `importing`, the versions by the entries, every entry finds
-- what it relies on, and a session that is opening or closing has the entry that ends it.
pub record Fine (s : Session) (journal : List Entry) (version projected : ℕ) : Type 0 where
  pub connected : s.has_connection ≡ true
  pub mapped :
      (is_ready (view s) || code s.state == 1 || code s.state == 3) ≡ true → s.in_map ≡ true
  pub counted : forced_count journal ≤ s.importing
  pub accounted : projected ≡ version + length journal
  pub queued : Queued (view s) (is_ready (view s)) journal
  pub opening : code s.state ≡ 1 → any (opens s.state_seq) journal ≡ true
  pub closing : code s.state ≡ 3 → any (closes s.state_seq) journal ≡ true

abbrev pub Good : World → Type 0
Good w = Fine w.session w.journal w.version w.projected

-- A change of the state gets a greater number.
abbrev pub Renumbers : (State → ℕ → State → ℕ) → Type 0
Renumbers next_seq = (a b : State) (n : ℕ) → (code a == code b) ≡ false → n < next_seq a n b

pub code_bound : (st : State) → code st < 6
code_bound state_closed = omega arith
code_bound state_opening = omega arith
code_bound state_open = omega arith
code_bound state_closing = omega arith
code_bound state_stale = omega arith
code_bound state_killing = omega arith

module _ (next_seq : State → ℕ → State → ℕ) (cleared_seq : ℕ → ℕ)
    (renumbers : Renumbers next_seq) where
  abbrev pub Succeeds : Option World → Type 0
  Succeeds o = (w' : World) × (o ≡ some w') × Good w'

  pub request_open_lem : (w : World) → Good w → Succeeds (request_open next_seq cleared_seq w)
  unfolding request_open
  request_open_lem w g =
      let s = w.session in
      elim (Bool-cases (
        in_state state_opening w
        || in_state state_open w
        || in_state state_stale w
        || in_state state_killing w)) [
          | inl busy ↦ (w, ground (arith, busy), g)
          | inr idle ↦
              let n = next_seq s.state s.state_seq state_opening in
              let over : (code s.state == 0 || code s.state == 3) ≡ true =
                ground (arith, idle, code_bound s.state) in
              let newer : s.state_seq < n =
                renumbers s.state state_opening s.state_seq (ground (arith, idle)) in
              let free =
                unheld (view s) (is_ready (view s)) w.journal (ground (arith, idle)) g.queued in
              let fresh = in_state state_closed w in
              let added = call_if fresh add_session (set_in_map (fresh || s.in_map) w) in
              let w' : World =
                submit (logged n true false)
                  (call touch_session (set_state next_seq cleared_seq state_opening added)) in
              (
                w',
                ground (arith, idle, over),
                record {
                  connected = g.connected;
                  mapped = λ h. ground (arith, over, g.mapped);
                  counted =
                      omega (arith, forced_count-append w.journal (logged n true false), free);
                  accounted =
                      omega
                        (arith, g.accounted, length-append w.journal (logged n true false ∷ []));
                  queued =
                      Queued-append (view w'.session) false w.journal (logged n true false)
                        (Queued-free (view s) (view w'.session) (is_ready (view s)) false w.journal
                          newer free g.queued)
                        (omega arith, λ h. refl);
                  opening =
                      λ h. ground (arith, any-append (opens n) w.journal (logged n true false));
                  closing = λ h. absurd (omega (arith, h));
                },
              )
        ]

  pub journal_close_session_lem :
      (st : State) (w : World)
      → (code st == 3 || code st == 5) ≡ true
      → (in_state state_opening w || in_state state_open w || in_state state_stale w) ≡ true
      → w.session.importing ≡ 0
      → Good w
      → Good (journal_close_session next_seq cleared_seq st w)
  unfolding journal_close_session
  journal_close_session_lem st w ends live alone g =
      let s = w.session in
      let n = next_seq s.state s.state_seq st in
      let newer : s.state_seq < n = renumbers s.state st s.state_seq (ground (arith, ends, live)) in
      let e = logged n false s.has_inos in
      let s' : Session = record s { state = st; state_seq = n; has_inos = false } in
      let free : forced_count w.journal ≡ 0 = omega (arith, g.counted, alone) in
      record {
        connected = g.connected;
        mapped = λ h. ground (arith, g.mapped, live);
        counted = omega (arith, forced_count-append w.journal e, free);
        accounted = omega (arith, g.accounted, length-append w.journal (e ∷ []));
        queued =
            Queued-append (view s') (is_ready (view s')) w.journal e
              (Queued-free (view s) (view s') (is_ready (view s)) (is_ready (view s')) w.journal
                newer free g.queued)
              (omega arith, λ h. ends);
        opening = λ h. absurd (ground (arith, ends, h));
        closing = λ h. ground (arith, any-append (closes n) w.journal e);
      }

  -- A session that is opened, or goes stale or back.
  pub ready_lem :
      (st : State) (s : Session) (b : Bool) (es : List Entry) (version projected : ℕ)
      → (code st == 2 || code st == 4) ≡ true
      → (code s.state == code st) ≡ false
      → s.in_map ≡ true
      → s.has_connection ≡ true
      → forced_count es ≤ s.importing
      → projected ≡ version + length es
      → Queued (view s) b es
      → Fine
          (record s { state = st; state_seq = next_seq s.state s.state_seq st })
          es
          version
          projected
  ready_lem st s b es version projected ready other kept connected counted accounted h =
      let s' : Session = record s { state = st; state_seq = next_seq s.state s.state_seq st } in
      record {
        connected = connected;
        mapped = λ _. kept;
        counted = counted;
        accounted = accounted;
        queued =
            Queued-ready (view s) (view s') b (is_ready (view s')) es
              (renumbers s.state st s.state_seq other) (λ held. (kept, ground (arith, ready)))
              (ground (arith, ready)) h;
        opening = λ e. absurd (ground (arith, ready, e));
        closing = λ e. absurd (ground (arith, ready, e));
      }

  pub request_renewcaps_lem :
      (seq : ℕ) (w : World) → Good w → Good (request_renewcaps next_seq cleared_seq seq w)
  unfolding request_renewcaps
  request_renewcaps_lem seq w g = elim (Bool-cases (in_state state_stale w)) [
    | inl old ↦
        let closed : in_state state_open w ≡ false = ground (arith, old) in
        rw (closed, old)
          (ready_lem state_open w.session (is_ready (view w.session)) w.journal w.version
            w.projected refl (ground (arith, old)) (g.mapped (ground (arith, old))) g.connected
            g.counted g.accounted g.queued)
    | inr e ↦ elim (Bool-cases (in_state state_open w)) [
      | inl f ↦ rw (e, f) g
      | inr f ↦ rw (e, f) g
    ]
  ]

  pub find_stale_lem :
      (is_old : Bool) (w : World) → Good w → Good (find_stale next_seq cleared_seq is_old w)
  unfolding find_stale
  find_stale_lem is_old w g =
      elim (Bool-cases (w.session.in_map && in_state state_open w && is_old)) [
        | inl due ↦ rw due (
            ready_lem state_stale w.session (is_ready (view w.session)) w.journal w.version
              w.projected refl (ground (arith, due)) (ground (arith, due)) g.connected g.counted
              g.accounted g.queued)
        | inr e ↦ rw e g
      ]

  -- The client echoes a number that it was sent.
  pub request_close_lem :
      (seq : ℕ) (w : World)
      → seq ≤ w.session.push_seq
      → Good w
      → Succeeds (request_close next_seq cleared_seq seq w)
  unfolding request_close
  request_close_lem seq w sent g =
      elim (Bool-cases (
        in_state state_closed w
        || in_state state_closing w
        || in_state state_killing w
        || is_importing w
        || ltb seq w.session.push_seq)) [
          | inl dropped ↦ (w, ground (arith, dropped, code_bound w.session.state), g)
          | inr live ↦ (
            journal_close_session next_seq cleared_seq state_closing w,
            ground (arith, live, sent, code_bound w.session.state),
            journal_close_session_lem state_closing w refl
                (ground (arith, live, code_bound w.session.state)) (ground (arith, live)) g,
          )
        ]

  pub kill_session_lem : (w : World) → Good w → Succeeds (kill_session next_seq cleared_seq w)
  unfolding kill_session
  kill_session_lem w g =
      elim (Bool-cases (
        (in_state state_opening w || in_state state_open w || in_state state_stale w)
        && not (is_importing w))) [
          | inl live ↦ (
            journal_close_session next_seq cleared_seq state_killing w,
            ground (arith, live),
            journal_close_session_lem state_killing w refl (ground (arith, live))
                (ground (arith, live)) g,
          )
          | inr kept ↦ (w, ground (arith, kept, code_bound w.session.state), g)
        ]

  pub autoclose_lem :
      (is_old : Bool) (w : World) → Good w → Succeeds (autoclose next_seq cleared_seq is_old w)
  unfolding autoclose
  autoclose_lem is_old w g =
      elim (Bool-cases
        (w.session.in_map && in_state state_stale w && not (is_importing w) && is_old)) [
          | inl due ↦ rw due (kill_session_lem w g)
          | inr e ↦ (w, rw e refl, g)
        ]
