-- ===== src/Beacon/Stamps.antt =====
-- The map `seq_stamp` of mds/Beacon.cc: beacons sent and not yet acknowledged, with their times.
use mds.Prelude.{
  ℕ, suc, ◌≤◌, ◌<◌, ◌≡◌, refl, true, none, some, [], ◌∷◌, arith, leb, if◌then◌else◌, Map, From,
  find, put, find-From, From-mono,
}
use mds.Time.{UTime, IsClock}
use mds.Beacon.{drop_through}

module _ {ℓ} {V : Type ℓ} where
  drop_through-above : (seq n : ℕ) (m : Map V) → From n m → seq < n → drop_through seq m ≡ m
  unfolding drop_through
  drop_through-above seq n [] h lt = refl
  drop_through-above seq n ((k, t) ∷ m) h lt = ground arith

  pub drop_through-From : (seq n : ℕ) (m : Map V) → From n m → From n (drop_through seq m)
  unfolding drop_through
  drop_through-From seq n [] h = tt
  drop_through-From seq n ((k, t) ∷ m) h =
      ground (arith, drop_through-From seq (suc k) m h.1, From-mono n (suc k) (drop_through seq m))

  -- What is left after the sweep: exactly the entries above the number swept.
  pub find-drop_through :
      (seq j n : ℕ) (m : Map V)
      → From n m
      → find j (drop_through seq m) ≡ (if leb j seq then none else find j m)
  unfolding drop_through
  find-drop_through seq j n [] h = ground arith
  find-drop_through seq j n ((k, t) ∷ m) h =
      ground (arith, find-drop_through seq j (suc k) m h.1, find-From j (suc k) m h.1)

-- No key lies above the bound.
abbrev pub UpTo {ℓ} : {V : Type ℓ} → ℕ → Map V → Type 0
UpTo n [] = Unit {0}
UpTo n ((k, v) ∷ m) = (k ≤ n) × UpTo n m

pub UpTo-mono {ℓ} : {V : Type ℓ} (n k : ℕ) (m : Map V) → UpTo n m → n ≤ k → UpTo k m
UpTo-mono n k [] h le = tt
UpTo-mono n k ((j, v) ∷ m) h le = (omega arith, UpTo-mono n k m h.1 le)

pub UpTo-put {ℓ} :
    {V : Type ℓ} (n : ℕ) (v : V) (m : Map V) → UpTo n m → UpTo (suc n) (put (suc n) v m)
UpTo-put n v [] h = (omega arith, tt)
UpTo-put n v ((j, w) ∷ m) h = ground (arith, UpTo-put n v m h.1, UpTo-mono n (suc n) m h.1)

pub UpTo-drop_through {ℓ} :
    {V : Type ℓ} (seq n : ℕ) (m : Map V) → UpTo n m → UpTo n (drop_through seq m)
unfolding drop_through
UpTo-drop_through seq n [] h = tt
UpTo-drop_through seq n ((k, v) ∷ m) h = ground (arith, UpTo-drop_through seq n m h.1)

module _ {T : Type 0} (u : UTime T) where
  -- The stamps rise along the map, all above the given one.
  abbrev pub Rising : T → Map T → Type 0
  Rising low [] = Unit {0}
  Rising low ((k, t) ∷ m) = (u.lt low t ≡ true) × Rising t m

  -- Every stamp lies before the given reading of the clock.
  abbrev pub Past : T → Map T → Type 0
  Past now [] = Unit {0}
  Past now ((k, t) ∷ m) = (u.lt t now ≡ true) × Past now m

  pub Past-drop_through :
      (seq : ℕ) (now : T) (m : Map T) → Past now m → Past now (drop_through seq m)
  unfolding drop_through
  Past-drop_through seq now [] h = tt
  Past-drop_through seq now ((k, t) ∷ m) h = ground (arith, Past-drop_through seq now m h.1)

  pub Rising-put :
      (n : ℕ) (low now : T) (m : Map T)
      → UpTo n m
      → Past now m
      → u.lt low now ≡ true
      → Rising low m
      → Rising low (put (suc n) now m)
  Rising-put n low now [] b p l r = (l, tt)
  Rising-put n low now ((k, t) ∷ m) b p l r = ground (arith, Rising-put n t now m b.1 p.1 p.0 r.1)

  -- The entry of an acknowledged beacon, and what is left above it.
  pub Rising-drop_through :
      (seq n : ℕ) (stamp low : T) (m : Map T)
      → From n m
      → Rising low m
      → find seq m ≡ some stamp
      → Rising stamp (drop_through seq m)
  unfolding drop_through
  Rising-drop_through seq n stamp low [] f r e = cc
  Rising-drop_through seq n stamp low ((k, t) ∷ m) f r e = ground (
    arith,
    drop_through-above seq (suc k) m f.1,
    find-From seq (suc k) m f.1,
    Rising-drop_through seq (suc k) stamp t m f.1 r.1,
  )

module _ {T : Type 0} (u : UTime T) (c : IsClock u) where
  pub newer_stamp :
      (seq : ℕ) (stamp low : T) (m : Map T)
      → Rising u low m
      → find seq m ≡ some stamp
      → u.lt low stamp ≡ true
  newer_stamp seq stamp low [] r e = cc
  newer_stamp seq stamp low ((k, t) ∷ m) r e =
      ground (arith, newer_stamp seq stamp t m r.1, c.lt_trans low t stamp)

  pub Past-find :
      (seq : ℕ) (stamp now : T) (m : Map T)
      → Past u now m
      → find seq m ≡ some stamp
      → u.lt stamp now ≡ true
  Past-find seq stamp now [] p e = cc
  Past-find seq stamp now ((k, t) ∷ m) p e = ground (arith, Past-find seq stamp now m p.1)

  pub Past-later :
      (now later : T) (m : Map T) → u.lt now later ≡ true → Past u now m → Past u later m
  Past-later now later [] l p = tt
  Past-later now later ((k, t) ∷ m) l p =
      (c.lt_trans t now later p.0 l, Past-later now later m l p.1)

  pub Past-put :
      (n : ℕ) (now later : T) (m : Map T)
      → u.lt now later ≡ true
      → Past u later m
      → Past u later (put n now m)
  Past-put n now later [] l p = (l, tt)
  Past-put n now later ((k, t) ∷ m) l p = ground (arith, Past-put n now later m l p.1)
