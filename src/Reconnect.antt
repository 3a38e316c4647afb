-- ===== src/Reconnect.antt =====
-- mds/Server.cc: the phase in which the clients of a restarted server reconnect. The set of the
-- clients that have not is a list of their numbers. What the code asks of the cache, the sessions
-- and the daemon is a list of calls.
pub mod Gathering
pub mod Caps
mod Tests
use mds.Prelude.{
  ℕ, suc, ◌+◌, Bool, true, false, not, ◌&&◌, ◌||◌, Option, none, some, List, [], ◌∷◌, ◌++◌, ◌==◌,
  ltb, if◌then◌else◌, keep, assert, ◌>>◌, ◌>>=◌,
}

-- What the server reads of an inode that it has.
pub record Known : Type 0 where
  pub is_purging : Bool
  pub is_auth : Bool
  pub has_snaprealm : Bool
  pub past_parents_open : Bool
  pub authority : ℕ

pub data Call : Type 0 where
  wait_for_reconnect send_open send_close reconnect_done : Call
  finish_snaprealm_reconnect add_reconnected_snaprealm : (ino seq : ℕ) → Call
  reconnect_cap recover_filelocks : (ino : ℕ) → Call
  add_reconnected_cap : (ino realm : ℕ) → Call
  rejoin_export_caps : (ino authority : ℕ) → Call
  rejoin_recovered_caps : (ino : ℕ) → Call
  kill_session : (client : ℕ) → Call

pub record Cap : Type 0 where
  pub ino : ℕ
  pub cap_id : ℕ
  pub snaprealm : ℕ

-- `sessions`: the clients with a session in the session map.
pub record Server : Type 0 where
  pub gather : List ℕ
  pub sessions : List ℕ
  pub failed_reconnects : ℕ
  pub last_cap_id : ℕ
  pub calls : List Call  -- newest first

-- The state of the daemon and of the session, when the message comes. `has_session`: its connection
-- has one.
pub record Situation : Type 0 where
  pub has_session : Bool
  pub is_reconnect : Bool
  pub wants_reconnect : Bool
  pub is_closed : Bool
  pub is_readonly : Bool

abbrev pub is_nil {ℓ} : {A : Type ℓ} → List A → Bool
is_nil [] = true
is_nil (_ ∷ _) = false

abbrev pub call : Call → Server → Server
call c s = record s { calls = c ∷ s.calls }

abbrev pub leave : ℕ → List ℕ → List ℕ
leave client cs = keep (λ c. not (c == client)) cs

-- `if (client_reconnect_gather.empty()) reconnect_gather_finish()`.
abbrev pub finish_if_empty : Server → Server
finish_if_empty s = if is_nil s.gather then call reconnect_done s else s

unfoldable pub reconnect_clients : Server → Server
reconnect_clients s = finish_if_empty (record s { gather = s.sessions })

abbrev pub is_member : ℕ → List ℕ → Bool
is_member c [] = false
is_member c (d ∷ ds) = c == d || is_member c ds

-- What _session_logged does with the sets when a session closes.
unfoldable pub session_closed : (client : ℕ) → Server → Server
session_closed client s =
    let w = record s { sessions = leave client s.sessions } in
    if is_member client s.gather
    then finish_if_empty (record w { gather = leave client s.gather })
    else w

-- The session of each is in the session map, or the assertion fails.
abbrev pub give_up : List ℕ → Server → Option Server
give_up [] s = some s
give_up (c ∷ cs) s =
    assert (is_member c s.sessions)
    >> give_up cs (call (kill_session c) (record s { failed_reconnects = s.failed_reconnects + 1 }))

unfoldable pub reconnect_tick : (timed_out : Bool) → Server → Option Server
reconnect_tick timed_out s =
    if timed_out && not (is_nil s.gather)
    then (give_up s.gather s >>= λ s'. some (call reconnect_done (record s' { gather = [] })))
    else some s

module _ (get_inode : ℕ → Option Known) where
  -- The assertion that the inode has a realm fails as `none`.
  unfoldable pub recover_realms : List (ℕ × ℕ) → Server → Option Server
  recover_realms [] s = some s
  recover_realms ((ino, seq) ∷ rs) s =
      let skipped = recover_realms rs s in
      let finished = recover_realms rs (call (finish_snaprealm_reconnect ino seq) s) in
      let added = recover_realms rs (call (add_reconnected_snaprealm ino seq) s) in
      elim (get_inode ino) [
        | none ↦ added
        | some i ↦
            if i.is_purging
            then skipped
            else if not i.has_snaprealm
            then none
            else if i.past_parents_open
            then finished
            else added
      ]

  abbrev pub cap_calls : Cap → List Call → List Call
  cap_calls c cs = elim (get_inode c.ino) [
    | none ↦ rejoin_recovered_caps c.ino ∷ cs
    | some i ↦
        if i.is_purging
        then cs
        else if i.is_auth
        then recover_filelocks c.ino
          ∷ add_reconnected_cap c.ino c.snaprealm
          ∷ reconnect_cap c.ino
          ∷ cs
        else rejoin_export_caps c.ino i.authority ∷ cs
  ]

  unfoldable pub recover_caps : List Cap → Server → Server
  recover_caps [] s = s
  recover_caps (c ∷ cs) s = recover_caps cs (record s {
    last_cap_id = if ltb s.last_cap_id c.cap_id then c.cap_id else s.last_cap_id;
    calls = cap_calls c s.calls;
  })

  abbrev pub is_denied : Situation → Bool
  is_denied t = not t.is_reconnect || t.is_closed || t.is_readonly

  unfoldable pub handle_client_reconnect :
      Situation → (client : ℕ) (realms : List (ℕ × ℕ)) (caps : List Cap) → Server → Option Server
  unfolding recover_realms recover_caps
  handle_client_reconnect t client realms caps s =
      let reconnected = λ (s' : Server).
        let r = recover_caps caps s' in
        some (finish_if_empty (record r { gather = leave client r.gather })) in
      let answer : Option Server = elim (recover_realms realms (call send_open s)) [
        | none ↦ none
        | some s' ↦ reconnected s'
      ] in
      assert t.has_session
      >> (if not t.is_reconnect && t.wants_reconnect
          then some (call wait_for_reconnect s)
          else if is_denied t
          then some (call send_close s)
          else answer)
