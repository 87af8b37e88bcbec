-- ===== src/Engine/Social.antt =====
-- simswarm/environments/social.py: posts, replies, votes, reposts, follows, and the announcement of
-- posts that go viral. The arguments of a tool call have the types that its schema states, and each
-- may be missing. `uuid.uuid4()` is an argument.
pub mod Invariant
pub mod Votes
pub mod Announce
mod Tests
use sim_swarm.Prelude.{
  ℕ, suc, ◌+◌, Bool, true, false, List, [], ◌∷◌, ◌++◌, Option, none, some, ◌&&◌, not, leb,
  if◌then◌else◌, is_some, get_or, map,
}
use sim_swarm.Prelude.Int.{ℤ, pos, ltb_ℤ}
use sim_swarm.Prelude.Text.{Text, codes, text_eq}
use sim_swarm.Prelude.Dict.{Dict, text_Eq, lookup, insert, member, add}
use sim_swarm.Engine.Types.{Agent, ActionResult, Event}

-- The field of `SocialConfig` that the operations below read.
pub record SocialConfig : Type 0 where
  pub viral_threshold : ℕ

pub record Post : Type 0 where
  pub id : Text
  pub author_id : Text
  pub author_name : Text
  pub text : Text
  pub parent_id : Option Text
  pub likes : ℕ
  pub dislikes : ℕ
  pub reposts : ℕ
  pub created_round : ℕ
  pub voters : List Text

-- The `data` of a viral post's event.
pub record Viral : Type 0 where
  pub post_id : Text
  pub text : Text
  pub author : Text
  pub score : ℕ

-- `SocialEnvironment`
pub record Social : Type 0 where
  pub config : SocialConfig
  pub current_round : ℕ
  pub posts : Dict Text Post
  pub follows : Dict Text (List Text)
  pub pending_events : List (Event Viral)
  pub new_viral : List Text

-- `action.args`
pub record Args : Type 0 where
  pub text : Option Text
  pub post_id : Option Text
  pub value : Option ℤ
  pub agent_id : Option Text

pub record Action : Type 0 where
  pub action_type : Text
  pub args : Args

-- `ActionResult.data`
pub data Reply : Type 0 where
  error : Text → Reply
  post : Text → Reply
  followed : Text → Reply
  nothing : Reply

abbrev pub Step : Type 0
Step = ActionResult Reply × Social

abbrev pub success : Reply → ActionResult Reply
success d = record { success = true; payload = d }

abbrev pub failure : Text → ActionResult Reply
failure m = record { success = false; payload = error m }

unfoldable pub init : SocialConfig → ℕ → Social
init config current_round = record {
  config = config;
  current_round = current_round;
  posts = [];
  follows = [];
  pending_events = [];
  new_viral = [];
}

abbrev new_post : Text → Agent → Args → Option Text → Social → Post
new_post new_id agent args parent s = record {
  id = new_id;
  author_id = agent.id;
  author_name = agent.name;
  text = get_or args.text [];
  parent_id = parent;
  likes = 0;
  dislikes = 0;
  reposts = 0;
  created_round = s.current_round;
  voters = [];
}

unfoldable pub handle_create_post : Text → Agent → Args → Social → Step
handle_create_post new_id agent args s = (
  success (post new_id),
  record s { posts = insert new_id (new_post new_id agent args none s) s.posts },
)

unfoldable pub handle_reply : Text → Agent → Args → Social → Step
handle_reply new_id agent args s =
    let parent_id = get_or args.post_id [] in
    if is_some (lookup parent_id s.posts)
    then (
      success (post new_id),
      record s { posts = insert new_id (new_post new_id agent args (some parent_id) s) s.posts },
    )
    else (failure (codes "Post not found"), s)

-- A first vote: the voter is noted, and the vote counted.
abbrev pub vote_on : Text → ℤ → Post → Post
vote_on voter value p =
    if ltb_ℤ (pos 0) value
    then record p { voters = add voter p.voters; likes = p.likes + 1 }
    else record p { voters = add voter p.voters; dislikes = p.dislikes + 1 }

abbrev pub vote_found : Text → Agent → ℤ → Post → Social → Step
vote_found post_id agent value p s =
    if member agent.id p.voters then (failure (codes "Already voted"), s) else (
      success (post post_id),
      record s { posts = insert post_id (vote_on agent.id value p) s.posts },
    )

unfoldable pub handle_vote : Agent → Args → Social → Step
handle_vote agent args s =
    let post_id = get_or args.post_id [] in
    let value = get_or args.value (pos 1) in
    elim (lookup post_id s.posts) [
      | none ↦ (failure (codes "Post not found"), s)
      | some p ↦ vote_found post_id agent value p s
    ]

unfoldable pub handle_repost : Args → Social → Step
handle_repost args s =
    let post_id = get_or args.post_id [] in
    elim (lookup post_id s.posts) [
      | none ↦ (failure (codes "Post not found"), s)
      | some p ↦ (
        success (post post_id),
        record s { posts = insert post_id (record p { reposts = p.reposts + 1 }) s.posts },
      )
    ]

unfoldable pub handle_follow : Agent → Args → Social → Step
handle_follow agent args s =
    let target_id = get_or args.agent_id [] in
    (
      success (followed target_id),
      record s {
        follows = insert agent.id (add target_id (get_or (lookup agent.id s.follows) [])) s.follows;
      },
    )

-- `execute_action`: the table of handlers, and the failure for a name that it lacks.
unfoldable pub execute_action : Text → Agent → Action → Social → Step
execute_action new_id agent action s =
    if text_eq action.action_type (codes "create_post")
    then handle_create_post new_id agent action.args s
    else if text_eq action.action_type (codes "reply")
    then handle_reply new_id agent action.args s
    else if text_eq action.action_type (codes "vote")
    then handle_vote agent action.args s
    else if text_eq action.action_type (codes "repost")
    then handle_repost action.args s
    else if text_eq action.action_type (codes "follow")
    then handle_follow agent action.args s
    else if text_eq action.action_type (codes "do_nothing")
    then (success nothing, s)
    else (failure (codes "Unknown action: " ++ action.action_type), s)

abbrev pub viral_event : ℕ → Text → Post → Event Viral
viral_event round post_id p = record {
  source = codes "social";
  type = codes "viral_post";
  payload = record {
    post_id = post_id;
    text = p.text;
    author = p.author_name;
    score = p.likes + p.reposts;
  };
  round = round;
}

abbrev pub reaches : ℕ → Post → Bool
reaches threshold p = leb threshold (p.likes + p.reposts)

-- The loop of `tick` over the posts, with the events and the announced ids so far.
unfoldable pub announce :
    ℕ → ℕ → Dict Text Post → List (Event Viral) → List Text → List (Event Viral) × List Text
announce threshold round [] events seen = (events, seen)
announce threshold round ((post_id, p) ∷ posts) events seen =
    let fires = reaches threshold p && not (member post_id seen) in
    announce threshold round posts
      (if fires then events ++ viral_event round post_id p ∷ [] else events)
      (if fires then add post_id seen else seen)

unfoldable pub tick : Social → Social
unfolding announce
tick s =
    let round = s.current_round + 1 in
    let (events, seen) =
      announce s.config.viral_threshold round s.posts s.pending_events s.new_viral in
    record s { current_round = round; pending_events = events; new_viral = seen }

unfoldable pub publish_events : Social → List (Event Viral) × Social
publish_events s = (s.pending_events, record s { pending_events = [] })

-- `current_engagement`: (likes, dislikes) of each post.
unfoldable pub current_engagement : Social → Dict Text (ℕ × ℕ)
current_engagement s = map (λ e. (e.0, (e.1.likes, e.1.dislikes))) s.posts
