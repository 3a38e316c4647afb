-- ===== src/Sessions/Queue.antt =====
-- mds/Server.cc, sessions: the entries that the log has not finished, and what they will find.
use mds.Prelude.{
  ℕ, ◌+◌, ◌≤◌, ◌<◌, ◌≡◌, refl, subst, Bool, true, false, not, ◌&&◌, ◌||◌, none, some, List, [], ◌∷◌,
  ◌++◌, ◌==◌, arith, if◌then◌else◌,
}
use mds.Sessions.{State, Session, code, Entry, logged, forced}

-- What the entries read of a session.
pub record View : Type 0 where
  pub state : State
  pub state_seq : ℕ
  pub in_map : Bool

abbrev pub view : Session → View
view s = record { state = s.state; state_seq = s.state_seq; in_map = s.in_map }

abbrev pub is_ready : View → Bool
is_ready s = (code s.state == 2) || (code s.state == 4)

-- A session that an entry is to open stays in the map, and is opening or open until then.
abbrev pub Held : View → Type 0
Held s = (s.in_map ≡ true) × ((is_ready s || (code s.state == 1)) ≡ true)

-- The entry opens the session, if the state is still the one that it was made for.
abbrev pub opens : ℕ → Entry → Bool
opens n (logged q o r) = o && q == n
opens n (forced none d) = false
opens n (forced (some q) d) = q == n

abbrev pub closes : ℕ → Entry → Bool
closes n (logged q o r) = not o && q == n
closes n (forced q d) = false

abbrev pub is_forced : Entry → Bool
is_forced (logged q o r) = false
is_forced (forced q d) = true

abbrev pub any : (Entry → Bool) → List Entry → Bool
any p [] = false
any p (e ∷ es) = p e || any p es

abbrev pub forced_count : List Entry → ℕ
forced_count [] = 0
forced_count (e ∷ es) = (if is_forced e then 1 else 0) + forced_count es

-- What an entry relies on; `ready`: the session is open, or an earlier entry opens it.
abbrev pub Fits : View → (ready : Bool) → Entry → Type 0
Fits s ready (logged q true r) = (q ≤ s.state_seq) × (q ≡ s.state_seq → code s.state ≡ 1)
Fits s ready (logged q false r) =
    (q ≤ s.state_seq) × (q ≡ s.state_seq → (code s.state == 3 || code s.state == 5) ≡ true)
Fits s ready (forced none d) = Held s × (ready ≡ true)
Fits s ready (forced (some q) d) = (q ≤ s.state_seq) × Held s × (q ≡ s.state_seq → code s.state ≡ 1)

abbrev pub Queued : View → (ready : Bool) → List Entry → Type 0
Queued s ready [] = Unit
Queued s ready (e ∷ es) = Fits s ready e × Queued s (ready || opens s.state_seq e) es

-- The session moved on to a state that is ready, or there is no forced opening.
Fits-moved :
    (s s' : View) (b b' : Bool) (e : Entry)
    → s.state_seq < s'.state_seq
    → (is_forced e ≡ true → Held s → Held s' × (b' ≡ true))
    → Fits s b e
    → Fits s' b' e
Fits-moved s s' b b' (logged q true r) newer keeps h =
    (omega (arith, h.0), λ same. absurd (omega (arith, same, h.0)))
Fits-moved s s' b b' (logged q false r) newer keeps h =
    (omega (arith, h.0), λ same. absurd (omega (arith, same, h.0)))
Fits-moved s s' b b' (forced none d) newer keeps h = keeps refl h.0
Fits-moved s s' b b' (forced (some q) d) newer keeps h =
    (omega (arith, h.0), (keeps refl h.1).0, λ same. absurd (omega (arith, same, h.0)))

pub Queued-ready :
    (s s' : View) (b b' : Bool) (es : List Entry)
    → s.state_seq < s'.state_seq
    → (Held s → Held s')
    → b' ≡ true
    → Queued s b es
    → Queued s' b' es
Queued-ready s s' b b' [] newer keeps ready h = tt
Queued-ready s s' b b' (e ∷ es) newer keeps ready h = (
  Fits-moved s s' b b' e newer (λ f held. (keeps held, ready)) h.0,
  Queued-ready s s' (b || opens s.state_seq e) (b' || opens s'.state_seq e) es newer keeps
      (ground (arith, ready)) h.1,
)

pub Queued-free :
    (s s' : View) (b b' : Bool) (es : List Entry)
    → s.state_seq < s'.state_seq
    → forced_count es ≡ 0
    → Queued s b es
    → Queued s' b' es
Queued-free s s' b b' [] newer free h = tt
Queued-free s s' b b' (e ∷ es) newer free h = (
  Fits-moved s s' b b' e newer (λ f held. absurd (ground (arith, f, free))) h.0,
  Queued-free s s' (b || opens s.state_seq e) (b' || opens s'.state_seq e) es newer
      (ground (arith, free)) h.1,
)

-- With no forced opening, the map does not matter.
pub Queued-unmapped :
    (s : View) (b : Bool) (es : List Entry)
    → forced_count es ≡ 0
    → Queued s b es
    → Queued (record s { in_map = false }) b es
Queued-unmapped s b [] free h = tt
Queued-unmapped s b (logged q true r ∷ es) free h = (
  h.0,
  Queued-unmapped s (b || opens s.state_seq (logged q true r)) es (ground (arith, free)) h.1,
)
Queued-unmapped s b (logged q false r ∷ es) free h = (
  h.0,
  Queued-unmapped s (b || opens s.state_seq (logged q false r)) es (ground (arith, free)) h.1,
)
Queued-unmapped s b (forced q d ∷ es) free h = absurd (ground (arith, free))

-- A session that is not held has no forced opening.
pub unheld :
    (s : View) (b : Bool) (es : List Entry)
    → (s.in_map && (is_ready s || (code s.state == 1))) ≡ false
    → Queued s b es
    → forced_count es ≡ 0
unheld s b [] out h = refl
unheld s b (logged q o r ∷ es) out h =
    omega (arith, unheld s (b || opens s.state_seq (logged q o r)) es out h.1)
unheld s b (forced none d ∷ es) out h = absurd (ground (arith, out, h.0.0))
unheld s b (forced (some q) d ∷ es) out h = absurd (ground (arith, out, h.0.1))

pub Queued-append :
    (s : View) (b : Bool) (es : List Entry) (e : Entry)
    → Queued s b es
    → Fits s (b || any (opens s.state_seq) es) e
    → Queued s b (es ++ e ∷ [])
Queued-append s b [] e h fit = (subst (λ r. Fits s r e) (ground arith) fit, tt)
Queued-append s b (f ∷ es) e h fit = (
  h.0,
  Queued-append s (b || opens s.state_seq f) es e h.1 (subst (λ r. Fits s r e) (ground arith) fit),
)

pub any-append :
    (p : Entry → Bool) (es : List Entry) (e : Entry) → any p (es ++ e ∷ []) ≡ (any p es || p e)
any-append p [] e = ground arith
any-append p (f ∷ es) e = ground (arith, any-append p es e)

pub forced_count-append :
    (es : List Entry) (e : Entry)
    → forced_count (es ++ e ∷ []) ≡ forced_count es + (if is_forced e then 1 else 0)
forced_count-append [] e = omega arith
forced_count-append (f ∷ es) e = omega (arith, forced_count-append es e)
