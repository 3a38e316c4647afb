-- ===== src/Beacon/Acks.antt =====
-- mds/Beacon.cc, `_send` and `handle_mds_beacon`: beacons and their acknowledgements over time.
use mds.Prelude.{
  ℕ, suc, ◌+◌, ◌^◌, ◌≤◌, ◌<◌, ◌≡◌, refl, ◌⊎◌, inl, inr, Bool, true, false, Option, none, some, List,
  [], ◌∷◌, arith, leb, if◌then◌else◌, ◌>>=◌, length, Option-cases, From, find, put-From,
}
use mds.Prelude.Int.{ℤ}
use mds.Time.{UTime, IsClock}
use mds.Beacon.{
  Config, Beacon, v64, send, acked, handle_mds_beacon, is_laggy, notify_want_state, new_beacon,
}
use mds.Beacon.Stamps.{
  UpTo, Rising, Past, UpTo-put, UpTo-drop_through, Past-drop_through, Past-put, Past-find,
  Rising-put, Rising-drop_through, newer_stamp, drop_through-From, find-drop_through,
}

-- What happens to a beacon.
pub data Event : Type 0 where
  sends : (is_healthy : Bool) → Event
  acks : (seq : ℕ) → Event
  checks : Event
  wants : (newstate : ℕ) → Event

-- The readings of the clock strictly rise along the history.
abbrev pub Clocked : {T : Type 0} → UTime T → T → List (T × Event) → Type 0
Clocked u last [] = Unit {0}
Clocked u last ((now, e) ∷ es) = (u.lt last now ≡ true) × Clocked u now es

module _ {T C : Type 0} (u : UTime T) where
  unfoldable pub step : Config T → T × Event → Beacon T C → Option (Beacon T C)
  step cfg (now, sends is_healthy) b = some (send u cfg is_healthy now b).0
  step cfg (now, acks seq) b = handle_mds_beacon u cfg seq now b
  step cfg (now, checks) b = some (is_laggy u cfg now b).1
  step cfg (now, wants newstate) b = some (notify_want_state u newstate b)

  -- A history; `none` if an assertion fails on the way.
  unfoldable pub run : Config T → List (T × Event) → Beacon T C → Option (Beacon T C)
  unfolding step
  run cfg [] b = some b
  run cfg (e ∷ es) b = step cfg e b >>= run cfg es

  -- What holds between two calls, where `last` is the last reading of the clock.
  pub record Inv (last : T) (b : Beacon T C) : Type 0 where
    pub keys_rise : From 1 b.seq_stamp
    pub keys_sent : UpTo b.last_seq b.seq_stamp
    pub stamps_rise : Rising u b.last_acked_stamp b.seq_stamp
    pub stamps_past : (now : T) → u.lt last now ≡ true → Past u now b.seq_stamp
    pub acked_past : (now : T) → u.lt last now ≡ true → u.lt b.last_acked_stamp now ≡ true

module _ {T C : Type 0} (u : UTime T) (c : IsClock u) (cfg : Config T) where
  Inv-later : (last now : T) (b : Beacon T C) → u.lt last now ≡ true → Inv u last b → Inv u now b
  Inv-later last now b l v = record {
    keys_rise = v.keys_rise;
    keys_sent = v.keys_sent;
    stamps_rise = v.stamps_rise;
    stamps_past = λ t h. v.stamps_past t (c.lt_trans last now t l h);
    acked_past = λ t h. v.acked_past t (c.lt_trans last now t l h);
  }

  send-Inv :
      (is_healthy : Bool) (last now : T) (b : Beacon T C)
      → u.lt last now ≡ true
      → b.last_seq + 1 < 2 ^ 64
      → Inv u last b
      → Inv u now (send u cfg is_healthy now b).0
  unfolding send
  send-Inv false last now b l room v = Inv-later last now _ l (record {
    keys_rise = v.keys_rise;
    keys_sent = v.keys_sent;
    stamps_rise = v.stamps_rise;
    stamps_past = v.stamps_past;
    acked_past = v.acked_past;
  })
  send-Inv true last now b l room v =
      let e : v64 (b.last_seq + 1) ≡ suc b.last_seq = omega arith in
      rw e (record {
        keys_rise = put-From (suc b.last_seq) 1 now b.seq_stamp v.keys_rise (omega arith);
        keys_sent = UpTo-put b.last_seq now b.seq_stamp v.keys_sent;
        stamps_rise =
            Rising-put u b.last_seq b.last_acked_stamp now b.seq_stamp v.keys_sent
              (v.stamps_past now l) (v.acked_past now l) v.stamps_rise;
        stamps_past = λ t h.
            Past-put u c (suc b.last_seq) now t b.seq_stamp h
              (v.stamps_past t (c.lt_trans last now t l h));
        acked_past = λ t h. v.acked_past t (c.lt_trans last now t l h);
      })

  acked-Inv :
      (seq : ℕ) (stamp last now : T) (b : Beacon T C)
      → u.lt last now ≡ true
      → find seq b.seq_stamp ≡ some stamp
      → Inv u last b
      → Inv u now (acked u cfg seq stamp now b)
  unfolding acked
  acked-Inv seq stamp last now b l e v = record {
    keys_rise = drop_through-From seq 1 b.seq_stamp v.keys_rise;
    keys_sent = UpTo-drop_through seq b.last_seq b.seq_stamp v.keys_sent;
    stamps_rise =
        Rising-drop_through u seq 1 stamp b.last_acked_stamp b.seq_stamp v.keys_rise v.stamps_rise
          e;
    stamps_past =
        λ t h. Past-drop_through u seq t b.seq_stamp (v.stamps_past t (c.lt_trans last now t l h));
    acked_past = λ t h.
        Past-find u c seq stamp t b.seq_stamp (v.stamps_past t (c.lt_trans last now t l h)) e;
  }

  -- An acknowledgement never fails its assertion, and keeps the invariant.
  handle_mds_beacon-Inv :
      (seq : ℕ) (last now : T) (b : Beacon T C)
      → u.lt last now ≡ true
      → Inv u last b
      → (b' : Beacon T C) × (handle_mds_beacon u cfg seq now b ≡ some b')
        × Inv u now b'
        × (b'.last_seq ≡ b.last_seq)
  unfolding handle_mds_beacon
  handle_mds_beacon-Inv seq last now b l v = elim (Option-cases (find seq b.seq_stamp)) [
    | inl e ↦ (b, rw (e, handle_mds_beacon) refl, Inv-later last now b l v, refl)
    | inr (stamp, e) ↦ (
      acked u cfg seq stamp now b,
      rw (e, handle_mds_beacon)
          (rw (newer_stamp u c seq stamp b.last_acked_stamp b.seq_stamp v.stamps_rise e) refl),
      acked-Inv seq stamp last now b l e v,
      refl,
    )
  ]

  Inv-same :
      (last : T) (a b : Beacon T C)
      → (b.seq_stamp ≡ a.seq_stamp)
        × (b.last_acked_stamp ≡ a.last_acked_stamp)
        × (b.last_seq ≡ a.last_seq)
      → Inv u last a
      → Inv u last b
  Inv-same last a b (s, k, n) v = record {
    keys_rise = rw s v.keys_rise;
    keys_sent = rw (s, n) v.keys_sent;
    stamps_rise = rw (s, k) v.stamps_rise;
    stamps_past = λ t h. rw s (v.stamps_past t h);
    acked_past = λ t h. rw k (v.acked_past t h);
  }

  is_laggy_keeps :
      (now : T) (b : Beacon T C)
      → let b' = (is_laggy u cfg now b).1 in
        (b'.seq_stamp ≡ b.seq_stamp)
        × (b'.last_acked_stamp ≡ b.last_acked_stamp)
        × (b'.last_seq ≡ b.last_seq)
  unfolding is_laggy
  is_laggy_keeps now b = ground arith

  -- One event: it does not fail, keeps the invariant, and sends at most one beacon.
  step-Inv :
      (e : Event) (last now : T) (b : Beacon T C)
      → u.lt last now ≡ true
      → b.last_seq + 1 < 2 ^ 64
      → Inv u last b
      → (b' : Beacon T C) × (step u cfg (now, e) b ≡ some b')
        × Inv u now b'
        × (b'.last_seq ≤ b.last_seq + 1)
  unfolding step
  step-Inv (sends true) last now b l room v =
      (_, refl, send-Inv true last now b l room v, unfold send in omega arith)
  step-Inv (sends false) last now b l room v =
      (_, refl, send-Inv false last now b l room v, unfold send in omega arith)
  step-Inv (acks seq) last now b l room v =
      let (b', e, v', n) = handle_mds_beacon-Inv seq last now b l v in (b', e, v', omega arith)
  step-Inv checks last now b l room v = (
    _,
    refl,
    Inv-same now b _ (is_laggy_keeps now b) (Inv-later last now b l v),
    omega (arith, (is_laggy_keeps now b).2),
  )
  step-Inv (wants newstate) last now b l room v = (
    _,
    refl,
    unfold notify_want_state in Inv-same now b _ (refl, refl, refl) (Inv-later last now b l v),
    unfold notify_want_state in omega arith,
  )

  run-Inv :
      (es : List (T × Event)) (last : T) (b : Beacon T C)
      → Clocked u last es
      → b.last_seq + length es < 2 ^ 64
      → Inv u last b
      → (b' : Beacon T C) × (now : T) × (run u cfg es b ≡ some b') × Inv u now b'
  unfolding run
  run-Inv [] last b k room v = (b, last, refl, v)
  run-Inv ((now, e) ∷ es) last b (l, k) room v =
      let (b₁, e₁, v₁, n₁) = step-Inv e last now b l (omega arith) v in
      let (b₂, end, e₂, v₂) = run-Inv es now b₁ k (omega arith) v₁ in (b₂, end, rw (e₁, run) e₂, v₂)

  new_beacon-Inv :
      (state_null : ℕ) (no_pref : ℤ) (no_compat : C)
      → Inv u u.zero_time (new_beacon u state_null no_pref no_compat)
  unfolding new_beacon
  new_beacon-Inv state_null no_pref no_compat = record {
    keys_rise = tt;
    keys_sent = tt;
    stamps_rise = tt;
    stamps_past = λ t h. tt;
    acked_past = λ t h. h;
  }

  -- From a new beacon, any history of sends, acknowledgements of any numbers, laggy checks and
  -- changes of the wanted state runs to its end without a failed assertion and keeps the
  -- invariant, if the clock strictly rises from the zero time on and fewer than 2^64 events happen.
  pub run_never_fails :
      (state_null : ℕ) (no_pref : ℤ) (no_compat : C) (es : List (T × Event))
      → Clocked u u.zero_time es
      → length es < 2 ^ 64
      → (b : Beacon T C) × (now : T) × (run u cfg es (new_beacon u state_null no_pref no_compat)
          ≡ some b)
        × Inv u now b
  run_never_fails state_null no_pref no_compat es k room =
      run-Inv es u.zero_time (new_beacon u state_null no_pref no_compat) k
        (unfold new_beacon in omega arith) (new_beacon-Inv state_null no_pref no_compat)

  -- An acknowledgement of a beacon that waits: every beacon up to it is forgotten, those after it
  -- still wait with their stamps, and its stamp is the last acknowledged one. An acknowledgement of
  -- any other number changes nothing.
  pub handle_mds_beacon_lem :
      (seq : ℕ) (last now : T) (b : Beacon T C)
      → u.lt last now ≡ true
      → Inv u last b
      → (b' : Beacon T C) × (handle_mds_beacon u cfg seq now b ≡ some b')
        × (((stamp : T) × (find seq b.seq_stamp ≡ some stamp)
              × (b'.last_acked_stamp ≡ stamp)
              × ((j : ℕ) → find j b'.seq_stamp ≡ (if leb j seq then none else find j b.seq_stamp)))
            ⊎ ((find seq b.seq_stamp ≡ none) × (b' ≡ b)))
  unfolding handle_mds_beacon
  handle_mds_beacon_lem seq last now b l v = elim (Option-cases (find seq b.seq_stamp)) [
    | inl e ↦ (b, rw (e, handle_mds_beacon) refl, inr (e, refl))
    | inr (stamp, e) ↦ (
      acked u cfg seq stamp now b,
      rw (e, handle_mds_beacon)
          (rw (newer_stamp u c seq stamp b.last_acked_stamp b.seq_stamp v.stamps_rise e) refl),
      inl (
        stamp,
        e,
        unfold acked in refl,
        λ j. unfold acked in find-drop_through seq j 1 b.seq_stamp v.keys_rise,
      ),
    )
  ]
