-- ===== src/Engine/Number.antt =====
-- The numbers of simswarm/: what the engine uses of Python's `float`, so that nothing rests on how it
-- rounds.
use sim_swarm.Prelude.{ℕ, Bool, false, ◌≡◌}

-- What the code uses of `float`; `ratio p q` is the literal p/q, and `is_zero` tells where a division
-- raises.
pub record Number (N : Type 0) : Type 0 where
  pub ratio : ℕ → ℕ → N
  pub of_int : ℕ → N
  pub neg : N → N
  pub plus : N → N → N
  pub minus : N → N → N
  pub times : N → N → N
  pub over : N → N → N
  pub absolute : N → N
  pub lt : N → N → Bool
  pub le : N → N → Bool
  pub is_zero : N → Bool

-- Documented facts of the comparison and the difference.
pub record IsOrdered {N : Type 0} (num : Number N) : Type 0 where
  pub irreflexive : (x : N) → num.lt x x ≡ false
  pub zero_to_one : num.lt (num.ratio 1 1) (num.ratio 0 1) ≡ false
  pub minus_one_to_one : num.lt (num.ratio 1 1) (num.neg (num.ratio 1 1)) ≡ false
  pub minus_to_zero :
      (x y : N) → num.lt x y ≡ false → num.lt (num.minus x y) (num.ratio 0 1) ≡ false
