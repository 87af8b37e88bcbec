-- ===== src/Engine/Belief/Range.antt =====
-- simswarm/belief.py: beliefs stay in their ranges, and the history under its cap.
use sim_swarm.Prelude.{
  ℕ, ◌-◌, ◌≤◌, ◌≡◌, false, List, [], ◌∷◌, All, length, length-drop, ltb, arith, Bool-cases, inl,
  inr,
}
use sim_swarm.Prelude.Text.{Text}
use sim_swarm.Prelude.Dict.{Dict, text_Eq, All-insert}
use sim_swarm.Engine.Number.{Number, IsOrdered}
use sim_swarm.Engine.Belief.{
  BeliefState, Exposure, clamp, evolve_trust, cap_history, update_beliefs,
}

module _ {N : Type 0} (num : Number N) where
  -- Neither below `lo` nor above `hi`.
  abbrev pub Within : N → N → N → Type 0
  Within lo hi x = (num.lt x lo ≡ false) × (num.lt hi x ≡ false)

  abbrev pub Each : N → N → Dict Text N → Type 0
  Each lo hi d = All (λ e. Within lo hi e.1) d

  -- Positions lie from -1 to 1, confidence and trust from 0 to 1, and the history is capped.
  pub record IsBounded (state : BeliefState N) : Type 0 where
    pub positions : Each (num.neg (num.ratio 1 1)) (num.ratio 1 1) state.positions
    pub confidence : Each (num.ratio 0 1) (num.ratio 1 1) state.confidence
    pub trust : Each (num.ratio 0 1) (num.ratio 1 1) state.trust
    pub history : length state.exposure_history ≤ 2000

  module _ (ord : IsOrdered num) where
    clamp-Within : (value lo hi : N) → num.lt hi lo ≡ false → Within lo hi (clamp num value lo hi)
    unfolding clamp
    clamp-Within value lo hi h = ground (arith, h, ord.irreflexive lo, ord.irreflexive hi)

    evolve_trust-Each :
        (new_pos : N) (posts : List (Exposure N)) (trusts : Dict Text N)
        → Each (num.ratio 0 1) (num.ratio 1 1) trusts
        → Each (num.ratio 0 1) (num.ratio 1 1) (evolve_trust num new_pos posts trusts)
    unfolding evolve_trust
    evolve_trust-Each new_pos [] trusts h = h
    evolve_trust-Each new_pos (post ∷ posts) trusts h = evolve_trust-Each new_pos posts _ (
        All-insert (λ e. Within (num.ratio 0 1) (num.ratio 1 1) e.1) post.author _ trusts
          (clamp-Within _ (num.ratio 0 1) (num.ratio 1 1) ord.zero_to_one) h)

    cap_history-bounded :
        (listed : List Text → List Text) (seen : List Text)
        → length (listed seen) ≡ length seen
        → length (cap_history num listed seen) ≤ 2000
    unfolding cap_history
    cap_history-bounded listed seen h = elim (Bool-cases (ltb 2000 (length seen))) [
      | inl y ↦ rw y (omega (arith, length-drop (length (listed seen) - 2000) (listed seen)))
      | inr n ↦ rw n (ground (arith, n))
    ]

    -- If Python lists a set with each of its members once, a round of exposures keeps positions from
    -- -1 to 1, confidence and trust from 0 to 1, and the history within 2000 hashes.
    pub update_beliefs-IsBounded :
        (listed : List Text → List Text) (state : BeliefState N) (posts : List (Exposure N))
        (topic : Text) (own_likes own_dislikes : ℕ)
        → ((s : List Text) → length (listed s) ≡ length s)
        → IsBounded state
        → IsBounded (update_beliefs num listed state posts topic own_likes own_dislikes)
    unfolding update_beliefs
    update_beliefs-IsBounded listed state posts topic own_likes own_dislikes k h = record {
      positions =
          All-insert (λ e. Within (num.neg (num.ratio 1 1)) (num.ratio 1 1) e.1) topic _
            state.positions
            (clamp-Within _ (num.neg (num.ratio 1 1)) (num.ratio 1 1) ord.minus_one_to_one)
            h.positions;
      confidence =
          All-insert (λ e. Within (num.ratio 0 1) (num.ratio 1 1) e.1) topic _ state.confidence
            (clamp-Within _ (num.ratio 0 1) (num.ratio 1 1) ord.zero_to_one) h.confidence;
      trust = evolve_trust-Each _ posts state.trust h.trust;
      history = cap_history-bounded listed _ (k _);
    }
