-- ===== src/Beacon/Health.antt =====
-- mds/Beacon.cc, `notify_health`: the conditions that the next beacon reports. The texts of the
-- messages are left out; the numbers in them are kept.
use mds.Prelude.{
  ℕ, suc, ◌+◌, ◌-◌, ◌*◌, ◌^◌, ◌≤◌, ◌≡◌, refl, ◌↔◌, Bool, not, ◌&&◌, List, [], ◌∷◌, ◌++◌, map, arith,
  ltb, leb, if◌then◌else◌, length, keep,
}
use mds.Prelude.Int.{ℤ, pos, negsuc}
use mds.Time.{UTime}
use mds.Beacon.{
  Beacon, Metric, trim, late_release, late_release_many, client_recall, client_recall_many,
}

-- The conversion of an `int` to `size_t`.
abbrev pub size_of_int : ℤ → ℕ
size_of_int (pos n) = n
size_of_int (negsuc n) = 2 ^ 64 - suc n

-- `x * 2` on an `int`, within its range.
abbrev pub doubled : ℤ → ℤ
doubled (pos n) = pos (n * 2)
doubled (negsuc n) = negsuc (n * 2 + 1)

pub record HealthConfig (T : Type 0) : Type 0 where
  pub log_max_segments : ℤ
  pub health_summarize_threshold : ℤ
  pub recall_state_timeout : T

pub record Session (T : Type 0) : Type 0 where
  pub client : ℕ
  pub recalled_at : T

-- What the server shows to the beacon.
pub record Shown (T : Type 0) : Type 0 where
  pub num_segments : ℕ
  pub late_clients : List ℕ
  pub has_session : ℕ → Bool
  pub sessions : List (Session T)

-- The list as it is, or one metric with its length if it is longer than the threshold.
summarize : ℤ → (ℕ → Metric) → List Metric → List Metric
summarize threshold many metrics =
    if leb (length metrics) (size_of_int threshold) then metrics else many (length metrics) ∷ []

pub trim_metrics : {T : Type 0} → HealthConfig T → Shown T → List Metric
trim_metrics {T} cfg mds =
    let limit = size_of_int (doubled cfg.log_max_segments) in
    if ltb limit mds.num_segments then trim mds.num_segments cfg.log_max_segments ∷ [] else []

pub late_cap_metrics : {T : Type 0} → Shown T → List Metric
late_cap_metrics mds = map late_release (keep mds.has_session mds.late_clients)

module _ {T : Type 0} (u : UTime T) where
  -- The sessions that were asked to give up state and have not done so in time.
  abbrev pub is_overdue : HealthConfig T → T → Session T → Bool
  is_overdue cfg now s =
      not (u.same s.recalled_at u.zero_time)
      && u.lt s.recalled_at (u.minus now cfg.recall_state_timeout)

  pub late_recall_metrics : HealthConfig T → (now : T) → Shown T → List Metric
  late_recall_metrics cfg now mds =
      map (λ s. client_recall s.client) (keep (is_overdue cfg now) mds.sessions)

  unfoldable pub notify_health :
      {C : Type 0} → HealthConfig T → (now : T) → Shown T → Beacon T C → Beacon T C
  unfolding trim_metrics late_cap_metrics late_recall_metrics summarize
  notify_health cfg now mds b = record b {
    health =
        trim_metrics cfg mds
        ++ (summarize cfg.health_summarize_threshold late_release_many (late_cap_metrics mds)
            ++ summarize cfg.health_summarize_threshold client_recall_many
                (late_recall_metrics cfg now mds));
  }

module _ (threshold : ℤ) (many : ℕ → Metric) where
  summarize-nil : (ms : List Metric) → summarize threshold many ms ≡ [] → ms ≡ []
  unfolding summarize
  summarize-nil ms h = ground arith

append-eq-nil : (xs ys : List Metric) → xs ++ ys ≡ [] → (xs ≡ []) × (ys ≡ [])
append-eq-nil [] ys h = (refl, h)
append-eq-nil (x ∷ xs) ys h = cc

map-eq-nil : {A : Type 0} (f : A → Metric) (xs : List A) → map f xs ≡ [] → xs ≡ []
map-eq-nil f [] h = refl
map-eq-nil f (x ∷ xs) h = cc

module _ {T : Type 0} (cfg : HealthConfig T) (mds : Shown T) where
  trim_metrics-nil :
      trim_metrics cfg mds ≡ [] → mds.num_segments ≤ size_of_int (doubled cfg.log_max_segments)
  unfolding trim_metrics
  trim_metrics-nil h = ground arith

  trim_metrics-none :
      mds.num_segments ≤ size_of_int (doubled cfg.log_max_segments) → trim_metrics cfg mds ≡ []
  unfolding trim_metrics
  trim_metrics-none h = ground arith

module _ {T C : Type 0} (u : UTime T) (cfg : HealthConfig T) (now : T) (mds : Shown T) where
  -- A beacon reports nothing exactly when the journal is within twice its segments, no late client
  -- has a session, and no session is overdue.
  notify_health-nil :
      (b : Beacon T C)
      → ((notify_health u cfg now mds b).health ≡ []) ↔ (
          (mds.num_segments ≤ size_of_int (doubled cfg.log_max_segments))
          × (keep mds.has_session mds.late_clients ≡ [])
          × (keep (is_overdue u cfg now) mds.sessions ≡ []))
  unfolding notify_health
  notify_health-nil b = (
    λ h.
        let few = cfg.health_summarize_threshold in
        let (t, rest) = append-eq-nil _ _ h in
        let (p, q) = append-eq-nil _ _ rest in
        (
          trim_metrics-nil cfg mds t,
          map-eq-nil late_release _
              (unfold late_cap_metrics in summarize-nil few late_release_many _ p),
          map-eq-nil _ _ (unfold late_recall_metrics in summarize-nil few client_recall_many _ q),
        ),
    λ (t, p, q).
        rw (trim_metrics-none cfg mds t, late_cap_metrics, late_recall_metrics, p, q)
          (unfold summarize late_cap_metrics late_recall_metrics in ground arith),
  )
