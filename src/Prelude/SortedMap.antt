-- ===== src/Prelude/SortedMap.antt =====
-- `std::map` over numeric keys: an association list with strictly rising keys.
use Prim.Native.Nat.{ℕ, suc, ◌≤◌, ◌<◌}
use mathlib.Core.Path.{◌≡◌, refl}
use mathlib.Core.Option.{Option, none, some}
use mathlib.Core.List.{List, [], ◌∷◌}
use native.Mathlib.Omega.{arith}
use mds.Prelude.Tests.{ltb, ◌==◌, if◌then◌else◌}

abbrev pub Map {ℓ} : Type ℓ → Type ℓ
Map V = List (ℕ × V)

-- Every key lies at or above the bound, and the keys rise.
abbrev pub From {ℓ} : {V : Type ℓ} → ℕ → Map V → Type 0
From n [] = Unit {0}
From n ((k, v) ∷ m) = (n ≤ k) × From (suc k) m

module _ {ℓ} {V : Type ℓ} where
  -- `m.find(k)`: none is `m.end()`.
  abbrev pub find : ℕ → Map V → Option V
  find k [] = none
  find k ((j, v) ∷ m) = if k == j then some v else find k m

  -- `m[k] = v`.
  abbrev pub put : ℕ → V → Map V → Map V
  put k v [] = (k, v) ∷ []
  put k v ((j, w) ∷ m) =
      if k == j then (k, v) ∷ m else if ltb k j then (k, v) ∷ (j, w) ∷ m else (j, w) ∷ put k v m

  -- `m.erase(k)`.
  abbrev pub erase : ℕ → Map V → Map V
  erase k [] = []
  erase k ((j, w) ∷ m) = if k == j then m else (j, w) ∷ erase k m

  pub find-From : (k n : ℕ) (m : Map V) → From n m → k < n → find k m ≡ none
  find-From k n [] h lt = refl
  find-From k n ((j, v) ∷ m) h lt = ground (arith, find-From k (suc j) m h.1)

  pub find-put :
      (k j : ℕ) (v : V) (m : Map V) → find j (put k v m) ≡ (if j == k then some v else find j m)
  find-put k j v [] = refl
  find-put k j v ((i, w) ∷ m) = ground (arith, find-put k j v m)

  pub put-From : (k n : ℕ) (v : V) (m : Map V) → From n m → n ≤ k → From n (put k v m)
  put-From k n v [] h le = (le, tt)
  put-From k n v ((j, w) ∷ m) h le = ground (arith, put-From k (suc j) v m h.1)

  pub From-mono : (k n : ℕ) (m : Map V) → From n m → k ≤ n → From k m
  From-mono k n [] h le = tt
  From-mono k n ((j, v) ∷ m) h le = (omega arith, h.1)

  pub erase-From : (k n : ℕ) (m : Map V) → From n m → From n (erase k m)
  erase-From k n [] h = tt
  erase-From k n ((j, v) ∷ m) h =
      ground (arith, erase-From k (suc j) m h.1, From-mono n (suc j) m h.1)

  pub find-erase :
      (k j n : ℕ) (m : Map V) → From n m → find j (erase k m) ≡ (if j == k then none else find j m)
  find-erase k j n [] h = ground arith
  find-erase k j n ((i, v) ∷ m) h =
      ground (arith, find-erase k j (suc i) m h.1, find-From j (suc i) m h.1)
