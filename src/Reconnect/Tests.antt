-- ===== src/Reconnect/Tests.antt =====
-- A phase with two clients.
use mds.Prelude.{
  ℕ, ◌+◌, ◌≤◌, ◌<◌, ◌≡◌, ◌↔◌, refl, true, false, not, ◌&&◌, Option, none, some, List, [], ◌∷◌,
  arith, All, length, ◌==◌, if◌then◌else◌,
}
use mds.Reconnect.{
  Known, Cap, Server, Situation, is_nil, call, leave, send_close, wait_for_reconnect,
  reconnect_clients, reconnect_tick, is_denied, handle_client_reconnect,
}
use mds.Reconnect.Gathering.{Event, reconnected, closed, HaveRealms, ends, run, reconnect_ends}
use mds.Reconnect.Caps.{Treated, handle_client_reconnect_lem}

abbrev mine : Known
mine = record {
  is_purging = false;
  is_auth = true;
  has_snaprealm = true;
  past_parents_open = false;
  authority = 0;
}

-- Only inode 1 is known.
abbrev get_inode : ℕ → Option Known
get_inode n = if n == 1 then some mine else none

get_inode-HaveRealms : HaveRealms get_inode
get_inode-HaveRealms ino i e = ground (arith, e)

abbrev due : Situation
due = record {
  has_session = true;
  is_reconnect = true;
  wants_reconnect = true;
  is_closed = false;
  is_readonly = false;
}

abbrev caps : List Cap
caps =
    record { ino = 1; cap_id = 12; snaprealm = 1 }
    ∷ record { ino = 5; cap_id = 9; snaprealm = 1 }
    ∷ []

abbrev server : Server
server = record {
  gather = [];
  sessions = 4 ∷ 8 ∷ [];
  failed_reconnects = 0;
  last_cap_id = 10;
  calls = [];
}

abbrev events : List (Event get_inode)
events = reconnected due 4 ((1, 7) ∷ []) caps ∷ closed 6 ∷ []

reconnect_ends_example :
    (s : Server) × (run get_inode events (reconnect_clients server) ≡ some s)
    × ((is_nil s.gather ≡ true) ↔ (0 < ends s))
    × ((v : Server) × (reconnect_tick true s ≡ some v)
        × (0 < ends v)
        × (v.gather ≡ [])
        × (v.failed_reconnects ≡ s.failed_reconnects + length s.gather))
reconnect_ends_example =
    reconnect_ends get_inode events server get_inode-HaveRealms (refl, (tt, tt)) refl

handle_client_reconnect_lem_example :
    (s : Server) × (handle_client_reconnect get_inode due 4 ((1, 7) ∷ []) caps server ≡ some s)
    × ((not true && true) ≡ true → s ≡ call wait_for_reconnect server)
    × ((not (not true && true) && is_denied get_inode due) ≡ true → s ≡ call send_close server)
    × ((not (not true && true) && not (is_denied get_inode due)) ≡ true
        → All (λ c. Treated get_inode s.calls c × (c.cap_id ≤ s.last_cap_id)) caps
          × (10 ≤ s.last_cap_id)
          × (s.gather ≡ leave 4 []))
handle_client_reconnect_lem_example =
    handle_client_reconnect_lem get_inode due 4 ((1, 7) ∷ []) caps server get_inode-HaveRealms refl
