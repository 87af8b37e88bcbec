-- ===== src/Engine/Belief/Round.antt =====
-- simswarm/belief.py: `apply_belief_updates`, one round of updates over all agents. VADER's score of a
-- text and the printed hash of a text are parameters. The text of a post is a string.
use sim_swarm.Prelude.{
  ℕ, List, [], ◌∷◌, Option, none, some, ◌&&◌, not, ◌==◌, if◌then◌else◌, get_or, select, map, sum_by,
}
use sim_swarm.Prelude.Text.{Text, codes, text_eq, is_empty, lower}
use sim_swarm.Prelude.Dict.{Dict, text_Eq, lookup, member}
use sim_swarm.Engine.Number.{Number}
use sim_swarm.Engine.Value.{Value, text, whole, opaque, Payload, ActionRecord}
use sim_swarm.Engine.Belief.{BeliefState, Exposure, update_beliefs}

-- VADER's compound score, and the content hash of a round, an agent and a text.
pub record Scoring (N : Type 0) : Type 0 where
  pub polarity : Text → N
  pub tag : ℕ → Text → Text → Text

-- A post written in the round.
pub record Authored (N : Type 0) : Type 0 where
  pub author : Text
  pub agent_id : Text
  pub content_hash : Text
  pub stance : N
  pub likes : ℕ
  pub dislikes : ℕ

-- A value that is a string and not empty.
abbrev pub string_of : Option Value → Option Text
string_of (some (text t)) = if is_empty t then none else some t
string_of (some v) = none
string_of none = none

abbrev or_else : Option Text → Option Text → Option Text
or_else none b = b
or_else (some a) b = some a

-- `args.get("text") or args.get("content")`
abbrev pub content_of : Payload → Option Text
content_of args =
    or_else (string_of (lookup (codes "text") args)) (string_of (lookup (codes "content") args))

-- `_POST_ACTIONS`
abbrev pub post_actions : List Text
post_actions = codes "create_post" ∷ codes "post" ∷ codes "comment" ∷ codes "reply" ∷ []

-- `likes_lookup.get(post_id, (0, 0))`
abbrev engagement_of : Option Payload → Dict Text (ℕ × ℕ) → ℕ × ℕ
engagement_of none likes_lookup = (0, 0)
engagement_of (some result) likes_lookup = elim (lookup (codes "post_id") result) [
  | some v ↦ elim v [
    | text post_id ↦ get_or (lookup post_id likes_lookup) (0, 0)
    | whole n ↦ (0, 0)
    | opaque b s ↦ (0, 0)
  ]
  | none ↦ (0, 0)
]

module _ {N : Type 0} (num : Number N) (scoring : Scoring N) where
  -- `score_stance` of a text that is not empty.
  abbrev score_stance : Text → N
  score_stance t = if is_empty t then num.ratio 0 1 else scoring.polarity t

  abbrev authored_post : ActionRecord → Text → Dict Text (ℕ × ℕ) → Authored N
  authored_post r content likes_lookup =
      let engagement = engagement_of r.action_result likes_lookup in
      record {
        author = r.agent_name;
        agent_id = r.agent_id;
        content_hash = scoring.tag r.round_num r.agent_id content;
        stance = score_stance content;
        likes = engagement.0;
        dislikes = engagement.1;
      }

  -- The loop that gathers the posts of the round.
  unfoldable pub authored_posts : List ActionRecord → Dict Text (ℕ × ℕ) → List (Authored N)
  authored_posts [] likes_lookup = []
  authored_posts (r ∷ records) likes_lookup =
      let rest = authored_posts records likes_lookup in
      if r.success && member (lower r.action_type) post_actions
      then elim (content_of r.action_args) [
        | none ↦ rest
        | some content ↦ authored_post r content likes_lookup ∷ rest
      ]
      else rest

  abbrev exposure : Authored N → Exposure N
  exposure p = record {
    author = p.author;
    content_hash = p.content_hash;
    stance = p.stance;
    likes = p.likes;
  }

  -- The posts of the others.
  abbrev pub exposures_of : Text → List (Authored N) → List (Exposure N)
  exposures_of id authored = map exposure (select (λ p. not (text_eq p.agent_id id)) authored)

  -- The body of the loop over the agents, for one agent's id and beliefs.
  unfoldable pub update_agent :
      (List Text → List Text) → List (Authored N) → Text → Text → BeliefState N → BeliefState N
  update_agent listed authored topic id beliefs =
      let exposures = exposures_of id authored in
      let own = select (λ p. text_eq p.agent_id id) authored in
      let own_likes = sum_by (λ p. p.likes) own in
      let own_dislikes = sum_by (λ p. p.dislikes) own in
      if is_empty exposures && own_likes == 0 && own_dislikes == 0
      then beliefs
      else update_beliefs num listed beliefs exposures topic own_likes own_dislikes

  -- `apply_belief_updates`, on the beliefs of the agents under their ids.
  unfoldable pub apply_belief_updates :
      (List Text → List Text)
      → Dict Text (BeliefState N)
      → List ActionRecord
      → Text
      → Dict Text (ℕ × ℕ)
      → Dict Text (BeliefState N)
  apply_belief_updates listed agents round_records topic likes_lookup =
      let authored = authored_posts round_records likes_lookup in
      map (λ a. (a.0, update_agent listed authored topic a.0 a.1)) agents
