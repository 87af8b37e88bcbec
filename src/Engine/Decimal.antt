-- ===== src/Engine/Decimal.antt =====
-- Decimals in thousandths: numbers on which the definitions of simswarm/ run.
use sim_swarm.Prelude.{ℕ, ◌+◌, ◌*◌, ◌/◌, ◌==◌, refl, not, arith}
use sim_swarm.Prelude.Int.{ℤ, pos, negsuc, sub_ℕ, pos_part, neg_part, ltb_ℤ}
use sim_swarm.Engine.Number.{Number, IsOrdered}

-- The sign and the size of a product and of a quotient.
abbrev scale : (ℕ → ℕ → ℕ) → ℤ → ℤ → ℤ
scale f (pos a) (pos b) = pos (f a b)
scale f (pos a) (negsuc b) = sub_ℕ 0 (f a (b + 1))
scale f (negsuc a) (pos b) = sub_ℕ 0 (f (a + 1) b)
scale f (negsuc a) (negsuc b) = pos (f (a + 1) (b + 1))

abbrev pub thousandths : Number ℤ
thousandths = record {
  ratio = λ p q. pos (1000 * p / q);
  of_int = λ n. pos (1000 * n);
  neg = λ a. sub_ℕ (neg_part a) (pos_part a);
  plus = λ a b. sub_ℕ (pos_part a + pos_part b) (neg_part a + neg_part b);
  minus = λ a b. sub_ℕ (pos_part a + neg_part b) (neg_part a + pos_part b);
  times = scale (λ a b. a * b / 1000);
  over = scale (λ a b. 1000 * a / b);
  absolute = λ a. pos (pos_part a + neg_part a);
  lt = ltb_ℤ;
  le = λ a b. not (ltb_ℤ b a);
  is_zero = λ a. pos_part a + neg_part a == 0;
}

pub thousandths-IsOrdered : IsOrdered thousandths
thousandths-IsOrdered = record {
  irreflexive = λ x. ground arith;
  zero_to_one = refl;
  minus_one_to_one = refl;
  minus_to_zero = λ x y h. ground (arith, h);
}
