-- ===== src/Engine/Belief.antt =====
-- simswarm/belief.py: `update_beliefs`, over any type of numbers with the operations of Python's
-- `float`. `list(s)` of a set has an order that Python does not tell; that order is an argument.
pub mod Range
pub mod Round
mod Tests
use sim_swarm.Prelude.{
  ℕ, ◌-◌, Bool, true, false, List, [], ◌∷◌, ltb, if◌then◌else◌, get_or, length, drop, ◌≡◌,
}
use sim_swarm.Prelude.Text.{Text}
use sim_swarm.Prelude.Dict.{Dict, text_Eq, lookup, insert, member, add}
use sim_swarm.Engine.Number.{Number}

abbrev pub exposure_cap : ℕ
exposure_cap = 2000

-- `BeliefState`
pub record BeliefState (N : Type 0) : Type 0 where
  pub positions : Dict Text N
  pub confidence : Dict Text N
  pub trust : Dict Text N
  pub exposure_history : List Text

-- A post as `update_beliefs` reads it.
pub record Exposure (N : Type 0) : Type 0 where
  pub author : Text
  pub content_hash : Text
  pub stance : N
  pub likes : ℕ

module _ {N : Type 0} (num : Number N) where
  -- `_clamp`
  unfoldable pub clamp : N → N → N → N
  clamp value lo hi = if num.lt value lo then lo else if num.lt hi value then hi else value

  -- The weight of one post: trust, social proof, novelty and resistance.
  unfoldable pub influence_of : N → N → Bool → ℕ → N
  influence_of resistance trust seen likes =
      let novelty = if seen then num.ratio 5 10 else num.ratio 15 10 in
      let social_proof =
        num.plus (num.ratio 3 10) (num.times (num.of_int likes) (num.ratio 7 100)) in
      num.over (num.times (num.times trust social_proof) novelty) resistance

  -- The first loop: the position's change, and the hashes seen.
  unfoldable pub expose : Dict Text N → N → N → List (Exposure N) → N → List Text → N × List Text
  expose trusts current_pos resistance [] delta seen = (delta, seen)
  expose trusts current_pos resistance (post ∷ posts) delta seen =
      let trust = get_or (lookup post.author trusts) (num.ratio 5 10) in
      let influence = influence_of resistance trust (member post.content_hash seen) post.likes in
      let gap = num.minus post.stance current_pos in
      expose trusts current_pos resistance posts
        (num.plus delta (num.times (num.times gap influence) (num.ratio 1 10)))
        (add post.content_hash seen)

  -- The second loop: the trust in the authors.
  unfoldable pub evolve_trust : N → List (Exposure N) → Dict Text N → Dict Text N
  evolve_trust new_pos [] trusts = trusts
  evolve_trust new_pos (post ∷ posts) trusts =
      let alignment =
        num.minus (num.ratio 1 1)
          (num.over (num.absolute (num.minus post.stance new_pos)) (num.ratio 2 1)) in
      let trust_delta = num.times (num.minus alignment (num.ratio 5 10)) (num.ratio 5 100) in
      let base = get_or (lookup post.author trusts) (num.ratio 5 10) in
      evolve_trust new_pos posts (
        insert post.author (clamp (num.plus base trust_delta) (num.ratio 0 1) (num.ratio 1 1))
          trusts)

  -- The cap on the history; `listed` is the order in which Python lists the set.
  unfoldable pub cap_history : (List Text → List Text) → List Text → List Text
  cap_history listed seen =
      if ltb exposure_cap (length seen)
      then (let ordered = listed seen in drop (length ordered - exposure_cap) ordered)
      else seen

  -- `update_beliefs`
  unfoldable pub update_beliefs :
      (List Text → List Text) → BeliefState N → List (Exposure N) → Text → ℕ → ℕ → BeliefState N
  update_beliefs listed state posts topic own_likes own_dislikes =
      let current_pos = get_or (lookup topic state.positions) (num.ratio 0 1) in
      let current_conf = get_or (lookup topic state.confidence) (num.ratio 5 10) in
      let resistance = num.plus (num.ratio 3 10) (num.times current_conf (num.ratio 7 10)) in
      let (position_delta, seen) =
        expose state.trust current_pos resistance posts (num.ratio 0 1) state.exposure_history in
      let new_pos =
        clamp (num.plus current_pos position_delta) (num.neg (num.ratio 1 1)) (num.ratio 1 1) in
      let conf_delta =
        num.minus (num.times (num.of_int own_likes) (num.ratio 5 1000))
          (num.times (num.of_int own_dislikes) (num.ratio 8 1000)) in
      record {
        positions = insert topic new_pos state.positions;
        confidence =
            insert topic (clamp (num.plus current_conf conf_delta) (num.ratio 0 1) (num.ratio 1 1))
              state.confidence;
        trust = evolve_trust new_pos posts state.trust;
        exposure_history = cap_history listed seen;
      }
