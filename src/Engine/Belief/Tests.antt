-- ===== src/Engine/Belief/Tests.antt =====
-- simswarm/belief.py at concrete inputs.
use sim_swarm.Prelude.{◌≡◌, refl, List, [], ◌∷◌, arith}
use sim_swarm.Prelude.Int.{ℤ, pos, negsuc}
use sim_swarm.Prelude.Text.{Text, codes, text_eq}
use sim_swarm.Prelude.Dict.{lookup, insert, member, add}
use sim_swarm.Engine.Decimal.{thousandths, thousandths-IsOrdered}
use sim_swarm.Engine.Belief.{
  BeliefState, Exposure, clamp, influence_of, expose, evolve_trust, cap_history, update_beliefs,
}
use sim_swarm.Engine.Belief.Range.{IsBounded, update_beliefs-IsBounded}

abbrev topic : Text
topic = codes "oil"

abbrev undecided : BeliefState ℤ
undecided = record {
  positions = (topic, pos 900) ∷ [];
  confidence = (topic, pos 500) ∷ [];
  trust = (codes "Ann", pos 990) ∷ [];
  exposure_history = codes "h1" ∷ [];
}

abbrev posts : List (Exposure ℤ)
posts =
    record { author = codes "Ann"; content_hash = codes "h2"; stance = pos 1000; likes = 50 }
    ∷ record { author = codes "Bob"; content_hash = codes "h1"; stance = negsuc 999; likes = 0 }
    ∷ []

undecided-IsBounded : IsBounded thousandths undecided
undecided-IsBounded = record {
  positions = ((refl, refl), tt);
  confidence = ((refl, refl), tt);
  trust = ((refl, refl), tt);
  history = ground arith;
}

update_beliefs-IsBounded_example :
    IsBounded thousandths (update_beliefs thousandths (λ s. s) undecided posts topic 3 0)
update_beliefs-IsBounded_example =
    update_beliefs-IsBounded thousandths thousandths-IsOrdered (λ s. s) undecided posts topic 3 0
      (λ s. refl) undecided-IsBounded

-- The trust in the author who agrees is clamped at one.
trust_after :
    (update_beliefs thousandths (λ s. s) undecided posts topic 3 0).trust
    ≡ (codes "Ann", pos 1000) ∷ (codes "Bob", pos 476) ∷ []
unfolding update_beliefs expose evolve_trust influence_of clamp cap_history lookup insert member add
    text_eq
trust_after = refl
