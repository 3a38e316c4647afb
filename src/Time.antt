-- ===== src/Time.antt =====
-- include/utime.h is not part of the repository: a time is a value of a type with these operations.
use mds.Prelude.{Bool, true, false, ◌≡◌, ◌+◌, ◌-◌, ℕ, arith, ltb, ◌==◌}

-- What the code asks of a `utime_t`: the zero time, a difference and a sum, twice a span, `<`,
-- `==`.
pub record UTime (T : Type 0) : Type 0 where
  pub zero_time : T
  pub minus : T → T → T
  pub plus : T → T → T
  pub twice : T → T
  pub lt : T → T → Bool
  pub same : T → T → Bool

-- `<` on times is a strict order, and `==` tells equal times.
pub record IsClock {T : Type 0} (u : UTime T) : Type 0 where
  pub lt_trans : (a b c : T) → u.lt a b ≡ true → u.lt b c ≡ true → u.lt a c ≡ true
  pub lt_asymm : (a b : T) → u.lt a b ≡ true → u.lt b a ≡ false
  pub same_sound : (a b : T) → u.same a b ≡ true → a ≡ b

-- The laws can be met: whole ticks.
abbrev pub ticks : UTime ℕ
ticks = record {
  zero_time = 0;
  minus = λ a b. a - b;
  plus = λ a b. a + b;
  twice = λ a. a + a;
  lt = ltb;
  same = λ a b. a == b;
}

pub ticks-IsClock : IsClock ticks
ticks-IsClock = record {
  lt_trans = λ a b c p q. ground arith;
  lt_asymm = λ a b p. ground arith;
  same_sound = λ a b p. ground arith;
}
