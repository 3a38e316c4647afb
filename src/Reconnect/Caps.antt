-- ===== src/Reconnect/Caps.antt =====
-- mds/Server.cc, reconnecting: what becomes of a client's capabilities.
use mds.Prelude.{
  ℕ, ◌≤◌, ◌≡◌, ◌⊎◌, inl, inr, refl, ◌∙◌, true, false, not, ◌&&◌, Option, none, some, List, [], ◌∷◌,
  ltb, arith, if◌then◌else◌, All, All-mono, Bool-cases, Option-cases,
}
use mds.Reconnect.{
  Known, Call, send_open, send_close, wait_for_reconnect, reconnect_cap, recover_filelocks,
  add_reconnected_cap, rejoin_export_caps, rejoin_recovered_caps, Cap, Server, Situation, is_nil,
  call, leave, finish_if_empty, cap_calls, recover_caps, is_denied, handle_client_reconnect,
}
use mds.Reconnect.Gathering.{HaveRealms, recover_realms_lem}

-- The call was made.
abbrev pub Made : Call → List Call → Type 0
Made x [] = ⊥
Made x (d ∷ ds) = (d ≡ x) ⊎ Made x ds

module _ (get_inode : ℕ → Option Known) where
  -- An inode that the server does not have is left for later; one that it has the authority of gets
  -- the capability and its locks back, and another one's authority is told, unless the inode is
  -- being purged.
  pub record Treated (made : List Call) (c : Cap) : Type 0 where
    pub unknown : get_inode c.ino ≡ none → Made (rejoin_recovered_caps c.ino) made
    pub mine :
        (i : Known)
        → get_inode c.ino ≡ some i
        → i.is_purging ≡ false
        → i.is_auth ≡ true
        → Made (reconnect_cap c.ino) made
          × Made (add_reconnected_cap c.ino c.snaprealm) made
          × Made (recover_filelocks c.ino) made
    pub others :
        (i : Known)
        → get_inode c.ino ≡ some i
        → i.is_purging ≡ false
        → i.is_auth ≡ false
        → Made (rejoin_export_caps c.ino i.authority) made

  -- More calls do no harm.
  Treated-mono :
      (xs ys : List Call)
      → ((x : Call) → Made x xs → Made x ys)
      → (c : Cap) → Treated xs c
      → Treated ys c
  Treated-mono xs ys f c h = record {
    unknown = λ e. f (rejoin_recovered_caps c.ino) (h.unknown e);
    mine = λ i e p a.
        let (x, y, z) = h.mine i e p a in
        (
          f (reconnect_cap c.ino) x,
          f (add_reconnected_cap c.ino c.snaprealm) y,
          f (recover_filelocks c.ino) z,
        );
    others = λ i e p a. f (rejoin_export_caps c.ino i.authority) (h.others i e p a);
  }

  cap_calls-Made :
      (c : Cap) (cs : List Call) (x : Call) → Made x cs → Made x (cap_calls get_inode c cs)
  cap_calls-Made c cs x h = elim (Option-cases (get_inode c.ino)) [
    | inl e ↦ rw (cap_calls, e) (inr h)
    | inr (i, e) ↦ elim (Bool-cases i.is_purging) [
      | inl p ↦ rw (cap_calls, e, p) h
      | inr p ↦ elim (Bool-cases i.is_auth) [
        | inl a ↦ rw (cap_calls, e, p, a) (inr (inr (inr h)))
        | inr a ↦ rw (cap_calls, e, p, a) (inr h)
      ]
    ]
  ]

  cap_calls-Treated : (c : Cap) (cs : List Call) → Treated (cap_calls get_inode c cs) c
  cap_calls-Treated c cs = record {
    unknown = λ e. rw (cap_calls, e) (inl refl);
    mine = λ i e p a. rw (cap_calls, e, p, a) (inr (inr (inl refl)), inr (inl refl), inl refl);
    others = λ i e p a. rw (cap_calls, e, p, a) (inl refl);
  }

  recover_caps-Treated :
      (cs : List Cap) (s : Server)
      → let s' = recover_caps get_inode cs s in
        All (λ c. Treated s'.calls c × (c.cap_id ≤ s'.last_cap_id)) cs
        × (s.last_cap_id ≤ s'.last_cap_id)
        × ((x : Call) → Made x s.calls → Made x s'.calls)
        × (s'.gather ≡ s.gather)
  unfolding recover_caps
  recover_caps-Treated [] s = (tt, omega arith, λ x h. h, refl)
  recover_caps-Treated (c ∷ cs) s =
      let t : Server = record s {
        last_cap_id = if ltb s.last_cap_id c.cap_id then c.cap_id else s.last_cap_id;
        calls = cap_calls get_inode c s.calls;
      } in
      let s' = recover_caps get_inode cs t in
      let (all, more, kept, same) = recover_caps-Treated cs t in
      (
        (
          (
            Treated-mono t.calls s'.calls kept c (cap_calls-Treated c s.calls),
            ground (arith, more),
          ),
          all,
        ),
        ground (arith, more),
        λ x h. kept x (cap_calls-Made c s.calls x h),
        same,
      )

  finish_lem :
      (s : Server)
      → ((x : Call) → Made x s.calls → Made x (finish_if_empty s).calls)
        × ((finish_if_empty s).last_cap_id ≡ s.last_cap_id)
        × ((finish_if_empty s).gather ≡ s.gather)
  finish_lem s = elim (Bool-cases (is_nil s.gather)) [
    | inl e ↦ rw e (λ x h. inr h, refl, refl)
    | inr e ↦ rw e (λ x h. h, refl, refl)
  ]

  -- If every known inode has a realm, a client's message on a connection that has a session
  -- succeeds. Before the phase, when the server wants it, it waits; outside the phase, for a closed
  -- session or while the server only reads, it is answered by a close, and nothing else changes.
  -- Otherwise every capability is treated, the last id is at least each of theirs and not below the
  -- one before, and the client is waited for no longer.
  pub handle_client_reconnect_lem :
      (t : Situation) (client : ℕ) (realms : List (ℕ × ℕ)) (caps : List Cap) (s : Server)
      → HaveRealms get_inode
      → t.has_session ≡ true
      → (s' : Server) × (handle_client_reconnect get_inode t client realms caps s ≡ some s')
        × ((not t.is_reconnect && t.wants_reconnect) ≡ true → s' ≡ call wait_for_reconnect s)
        × ((not (not t.is_reconnect && t.wants_reconnect) && is_denied get_inode t) ≡ true
            → s' ≡ call send_close s)
        × ((not (not t.is_reconnect && t.wants_reconnect) && not (is_denied get_inode t)) ≡ true
            → All (λ c. Treated s'.calls c × (c.cap_id ≤ s'.last_cap_id)) caps
              × (s.last_cap_id ≤ s'.last_cap_id)
              × (s'.gather ≡ leave client s.gather))
  unfolding handle_client_reconnect
  handle_client_reconnect_lem t client realms caps s all known =
      elim (Bool-cases (not t.is_reconnect && t.wants_reconnect)) [
        | inl early ↦ (
          call wait_for_reconnect s,
          rw (known, early) refl,
          λ h. refl,
          λ h. absurd (ground (arith, early, h)),
          λ h. absurd (ground (arith, early, h)),
        )
        | inr due ↦ elim (Bool-cases (is_denied get_inode t)) [
          | inl denied ↦ (
            call send_close s,
            rw (known, due, denied) refl,
            λ h. absurd (ground (arith, due, h)),
            λ h. refl,
            λ h. absurd (ground (arith, denied, h)),
          )
          | inr welcome ↦
              let (u, done, (g, _, _), last) =
                recover_realms_lem get_inode realms (call send_open s) all in
              let (treated, more, _, g') = recover_caps-Treated caps u in
              let r : Server = record (recover_caps get_inode caps u) {
                gather = leave client (recover_caps get_inode caps u).gather;
              } in
              let s' = finish_if_empty r in
              let (kept, same, left) = finish_lem r in
              (
                s',
                rw (known, due, welcome, done) refl,
                λ h. absurd (ground (arith, due, h)),
                λ h. absurd (ground (arith, welcome, h)),
                λ h. (
                  All-mono (λ (c : Cap). Treated r.calls c × (c.cap_id ≤ r.last_cap_id))
                      (λ c. Treated s'.calls c × (c.cap_id ≤ s'.last_cap_id)) caps
                      (λ c k. (Treated-mono r.calls s'.calls kept c k.0, omega (arith, k.1, same)))
                      treated,
                  omega (arith, more, same, last),
                  left ∙ rw (g', g) refl,
                ),
              )
        ]
      ]
