-- ===== src/Reconnect/Gathering.antt =====
-- mds/Server.cc, reconnecting: when the phase ends.
use mds.Prelude.{
  ℕ, ◌+◌, ◌<◌, ◌≡◌, ◌↔◌, inl, inr, refl, ◌∙◌, Bool, true, false, not, ◌&&◌, Option, some, List, [],
  ◌∷◌, ◌==◌, ltb, arith, if◌then◌else◌, ◌>>=◌, length, Bool-cases, Option-cases, ap, sym, All,
  ==_iff, count_if,
}
use mds.Reconnect.{
  Known, Call, reconnect_done, kill_session, send_open, send_close, wait_for_reconnect,
  finish_snaprealm_reconnect, add_reconnected_snaprealm, Cap, Server, Situation, is_nil, call,
  leave, finish_if_empty, reconnect_clients, session_closed, give_up, reconnect_tick,
  recover_realms, cap_calls, recover_caps, is_denied, is_member, handle_client_reconnect,
}

abbrev pub is_done : Call → Bool
is_done reconnect_done = true
is_done _ = false

-- How often the phase was ended.
abbrev pub ends : Server → ℕ
ends s = count_if is_done s.calls

-- The phase was ended exactly if no client is waited for.
abbrev pub Ended : Server → Type 0
Ended s = is_nil s.gather ≡ ltb 0 (ends s)

-- It was not ended while one is.
abbrev pub Waits : Server → Type 0
Waits s = is_nil s.gather ≡ false → ends s ≡ 0

nil : (cs : List ℕ) → is_nil cs ≡ true → cs ≡ []
nil [] h = refl
nil (c ∷ cs) h = absurd (ground (arith, h))

leave-nil : (c : ℕ) (cs : List ℕ) → is_nil (leave c cs) ≡ false → is_nil cs ≡ false
leave-nil c [] h = h
leave-nil c (d ∷ ds) h = refl

finish_lem : (s : Server) → Waits s → Ended (finish_if_empty s)
finish_lem s w = elim (Bool-cases (is_nil s.gather)) [
  | inl e ↦ rw e (ground (arith, e))
  | inr e ↦ rw e (ground (arith, w e, e))
]

leave-Waits : (c : ℕ) (s : Server) → Ended s → Waits (record s { gather = leave c s.gather })
leave-Waits c s h some_left = ground (arith, h, leave-nil c s.gather some_left)

is_member-leave :
    (c d : ℕ) (cs : List ℕ) → is_member c (leave d cs) ≡ (not (c == d) && is_member c cs)
is_member-leave c d [] = ground arith
is_member-leave c d (e ∷ es) = ground (arith, is_member-leave c d es)

-- Every client that is waited for has a session.
abbrev pub AllKnown : Server → Type 0
AllKnown s = (c : ℕ) → is_member c s.gather ≡ true → is_member c s.sessions ≡ true

pub record IsPhase (s : Server) : Type 0 where
  pub ended : Ended s
  pub known : AllKnown s

-- Ending the phase, and leaving it.
finish-IsPhase : (s : Server) → Waits s → AllKnown s → IsPhase (finish_if_empty s)
finish-IsPhase s w k = record { ended = finish_lem s w; known = known_too (is_nil s.gather) }
  where
    known_too : (b : Bool) → AllKnown (if b then call reconnect_done s else s)
    known_too true = k
    known_too false = k

session_closed_lem : (c : ℕ) (s : Server) → IsPhase s → IsPhase (session_closed c s)
unfolding session_closed
session_closed_lem c s h = elim (Bool-cases (is_member c s.gather)) [
  | inl e ↦ rw e (
      finish-IsPhase (record s { gather = leave c s.gather; sessions = leave c s.sessions })
        (leave-Waits c s h.ended)
        (λ d m.
          ground
            (arith, m, h.known d, is_member-leave d c s.gather, is_member-leave d c s.sessions)))
  | inr e ↦ rw e record {
    ended = h.ended;
    known = λ d m. elim (Bool-cases (d == c)) [
      | inl same ↦
          absurd (ground (arith, m, e, ap (λ x. is_member x s.gather) ((==_iff d c).0 same)))
      | inr other ↦ ground (arith, m, other, h.known d m, is_member-leave d c s.sessions)
    ];
  }
]

-- All have a session: so many more have failed.
give_up_lem :
    (cs : List ℕ) (s : Server)
    → ((c : ℕ) → is_member c cs ≡ true → is_member c s.sessions ≡ true)
    → (s' : Server) × (give_up cs s ≡ some s')
      × (ends s' ≡ ends s)
      × (s'.failed_reconnects ≡ s.failed_reconnects + length cs)
give_up_lem [] s k = (s, refl, refl, omega arith)
give_up_lem (c ∷ cs) s k =
    let s₁ : Server =
      call (kill_session c) (record s { failed_reconnects = s.failed_reconnects + 1 }) in
    let here : is_member c s.sessions ≡ true = k c (ground arith) in
    let (s', done, same, more) = give_up_lem cs s₁ (λ d m. k d (ground (arith, m))) in
    (s', rw here done, ground (arith, same), omega (arith, more))

reconnect_tick_lem :
    (b : Bool) (s : Server)
    → IsPhase s
    → (s' : Server) × (reconnect_tick b s ≡ some s') × IsPhase s'
unfolding reconnect_tick
reconnect_tick_lem b s h = elim (Bool-cases (b && not (is_nil s.gather))) [
  | inl e ↦
      let (s', done, same, _) = give_up_lem s.gather s h.known in
      (
        call reconnect_done (record s' { gather = [] }),
        rw (e, done) refl,
        record { ended = ground (arith, same); known = λ c m. absurd (ground (arith, m)) },
      )
  | inr e ↦ (s, rw e refl, h)
]

-- The end of the phase by the timer.
timed_out_lem :
    (s : Server)
    → IsPhase s
    → (v : Server) × (reconnect_tick true s ≡ some v)
      × (0 < ends v)
      × (v.gather ≡ [])
      × (v.failed_reconnects ≡ s.failed_reconnects + length s.gather)
unfolding reconnect_tick
timed_out_lem s h = elim (Bool-cases (is_nil s.gather)) [
  | inl e ↦
      (s, rw e refl, ground (arith, h.ended, e), nil s.gather e, ground (arith, nil s.gather e))
  | inr e ↦
      let (s', done, same, more) = give_up_lem s.gather s h.known in
      (call reconnect_done (record s' { gather = [] }), rw (e, done) refl, omega arith, refl, more)
]

module _ (get_inode : ℕ → Option Known) where
  -- What the loops of a reconnection leave as it is.
  abbrev pub Same : Server → Server → Type 0
  Same s s' = (s'.gather ≡ s.gather) × (ends s' ≡ ends s) × (s'.sessions ≡ s.sessions)

  -- Every inode that the server knows has a realm.
  abbrev pub HaveRealms : Type 0
  HaveRealms = (ino : ℕ) (i : Known) → get_inode ino ≡ some i → i.has_snaprealm ≡ true

  pub recover_realms_lem :
      (rs : List (ℕ × ℕ)) (s : Server)
      → HaveRealms
      → (s' : Server) × (recover_realms get_inode rs s ≡ some s')
        × Same s s'
        × (s'.last_cap_id ≡ s.last_cap_id)
  unfolding recover_realms
  recover_realms_lem [] s all = (s, refl, (refl, refl, refl), refl)
  recover_realms_lem ((ino, seq) ∷ rs) s all = elim (Option-cases (get_inode ino)) [
    | inl e ↦
        let (s', done, same, last) =
          recover_realms_lem rs (call (add_reconnected_snaprealm ino seq) s) all in
        (s', rw (recover_realms, e) done, (same.0, omega (arith, same.1), same.2), last)
    | inr (i, e) ↦ elim (Bool-cases i.is_purging) [
      | inl p ↦
          let (s', done, same, last) = recover_realms_lem rs s all in
          (s', rw (recover_realms, e, p) done, same, last)
      | inr p ↦ elim (Bool-cases i.past_parents_open) [
        | inl o ↦
            let (s', done, same, last) =
              recover_realms_lem rs (call (finish_snaprealm_reconnect ino seq) s) all in
            (
              s',
              rw (recover_realms, e, p, all ino i e, o) done,
              (same.0, omega (arith, same.1), same.2),
              last,
            )
        | inr o ↦
            let (s', done, same, last) =
              recover_realms_lem rs (call (add_reconnected_snaprealm ino seq) s) all in
            (
              s',
              rw (recover_realms, e, p, all ino i e, o) done,
              (same.0, omega (arith, same.1), same.2),
              last,
            )
      ]
    ]
  ]

  cap_calls_lem :
      (c : Cap) (cs : List Call) → count_if is_done (cap_calls get_inode c cs) ≡ count_if is_done cs
  cap_calls_lem c cs = ground arith

  recover_caps_lem : (cs : List Cap) (s : Server) → Same s (recover_caps get_inode cs s)
  unfolding recover_caps
  recover_caps_lem [] s = (refl, refl, refl)
  recover_caps_lem (c ∷ cs) s =
      let s' : Server = record s {
        last_cap_id = if ltb s.last_cap_id c.cap_id then c.cap_id else s.last_cap_id;
        calls = cap_calls get_inode c s.calls;
      } in
      let (g, n, k) = recover_caps_lem cs s' in (g, n ∙ cap_calls_lem c s.calls, k)

  handle_client_reconnect-IsPhase :
      (t : Situation) (client : ℕ) (realms : List (ℕ × ℕ)) (caps : List Cap) (s : Server)
      → HaveRealms
      → t.has_session ≡ true
      → IsPhase s
      → (s' : Server) × (handle_client_reconnect get_inode t client realms caps s ≡ some s')
        × IsPhase s'
  unfolding handle_client_reconnect
  handle_client_reconnect-IsPhase t client realms caps s all has h =
      elim (Bool-cases (not t.is_reconnect && t.wants_reconnect)) [
        | inl early ↦ (
          call wait_for_reconnect s,
          rw (has, early) refl,
          record { ended = ground (arith, h.ended); known = h.known },
        )
        | inr due ↦ elim (Bool-cases (is_denied get_inode t)) [
          | inl denied ↦ (
            call send_close s,
            rw (has, due, denied) refl,
            record { ended = ground (arith, h.ended); known = h.known },
          )
          | inr welcome ↦
              let (u, done, (g, n, k), _) = recover_realms_lem realms (call send_open s) all in
              let (g', n', k') = recover_caps_lem caps u in
              let r : Server = recover_caps get_inode caps u in
              let ended : Ended r = ground (arith, h.ended, g, n, g', n') in
              let same : r.gather ≡ s.gather = g' ∙ g in
              (
                finish_if_empty (record r { gather = leave client r.gather }),
                rw (has, due, welcome, done) refl,
                finish-IsPhase (record r { gather = leave client r.gather })
                    (leave-Waits client r ended)
                    (λ c m.
                      ap (is_member c) (k' ∙ k)
                      ∙ h.known c (
                          ap (is_member c) (sym same)
                          ∙ ground (arith, m, is_member-leave c client r.gather))),
              )
        ]
      ]

  -- What happens in the phase: a client sends its state, its session closes, another one opens, or
  -- the timer runs.
  pub data Event : Type 0 where
    reconnected : Situation → (client : ℕ) (realms : List (ℕ × ℕ)) (caps : List Cap) → Event
    closed opened : (client : ℕ) → Event
    ticked : (timed_out : Bool) → Event

  unfoldable pub run : List Event → Server → Option Server
  run [] s = some s
  run (reconnected t client realms caps ∷ es) s =
      handle_client_reconnect get_inode t client realms caps s >>= run es
  run (closed client ∷ es) s = run es (session_closed client s)
  run (opened client ∷ es) s = run es (record s { sessions = client ∷ s.sessions })
  run (ticked b ∷ es) s = reconnect_tick b s >>= run es

  -- A message comes on a connection that has a session.
  abbrev pub IsSent : Event → Type 0
  IsSent (reconnected t client realms caps) = t.has_session ≡ true
  IsSent _ = Unit

  run_lem :
      (es : List Event) (s : Server)
      → HaveRealms
      → All IsSent es
      → IsPhase s
      → (s' : Server) × (run es s ≡ some s') × IsPhase s'
  unfolding run
  run_lem [] s all sent h = (s, refl, h)
  run_lem (reconnected t client realms caps ∷ es) s all sent h =
      let (u, first, phase) = handle_client_reconnect-IsPhase t client realms caps s all sent.0 h in
      let (s', rest, done) = run_lem es u all sent.1 phase in (s', rw (first, rest) refl, done)
  run_lem (closed client ∷ es) s all sent h =
      run_lem es (session_closed client s) all sent.1 (session_closed_lem client s h)
  run_lem (opened client ∷ es) s all sent h =
      run_lem es (record s { sessions = client ∷ s.sessions }) all sent.1
        record { ended = h.ended; known = λ c m. ground (arith, h.known c m) }
  run_lem (ticked b ∷ es) s all sent h =
      let (u, first, phase) = reconnect_tick_lem b s h in
      let (s', rest, done) = run_lem es u all sent.1 phase in (s', rw (first, rest) refl, done)

  -- If every known inode has a realm and each message comes on a connection that has a session, the
  -- phase runs without a failed assertion, whatever the clients do; at any time it was ended
  -- exactly if no client is waited for; and when the timer finds it too long it is ended, also
  -- without a failed assertion, with every client that is waited for given up.
  pub reconnect_ends :
      (es : List Event) (s : Server)
      → HaveRealms
      → All IsSent es
      → ends s ≡ 0
      → (s' : Server) × (run es (reconnect_clients s) ≡ some s')
        × ((is_nil s'.gather ≡ true) ↔ (0 < ends s'))
        × ((v : Server) × (reconnect_tick true s' ≡ some v)
            × (0 < ends v)
            × (v.gather ≡ [])
            × (v.failed_reconnects ≡ s'.failed_reconnects + length s'.gather))
  unfolding reconnect_clients
  reconnect_ends es s all sent none_yet =
      let start : IsPhase (reconnect_clients s) =
        finish-IsPhase (record s { gather = s.sessions }) (λ h. none_yet) (λ c m. m) in
      let (s', done, h) = run_lem es (reconnect_clients s) all sent start in
      (s', done, ground (arith, h.ended), timed_out_lem s' h)
