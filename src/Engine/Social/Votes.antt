-- ===== src/Engine/Social/Votes.antt =====
-- simswarm/environments/social.py: a vote lasts, over whole histories of the environment.
use sim_swarm.Prelude.{
  ◌+◌, ◌≡◌, ◌≢◌, refl, sym, ap, ◌∙◌, true, List, [], ◌∷◌, none, some, is_some, get_or, All, arith,
  Bool-cases, Option-cases, inl, inr, some-injective, subst,
}
use sim_swarm.Prelude.Int.{ℤ, pos}
use sim_swarm.Prelude.Text.{Text, codes, text_eq, text_eq_iff}
use sim_swarm.Prelude.Dict.{
  Dict, text_Eq, lookup, insert, member, lookup-insert_self, lookup-insert_ne, member-add_self,
  member-add_old,
}
use sim_swarm.Engine.Types.{Agent}
use sim_swarm.Engine.Social.{
  Post, Social, Args, Action, vote_on, handle_create_post, handle_reply, handle_vote, handle_repost,
  handle_follow, execute_action, tick, publish_events, new_post, vote_found, failure,
}
use sim_swarm.Engine.Social.Invariant.{execute_action-cases}

-- What the engine does with the environment.
pub data Move : Type 0 where
  act : Text → Agent → Action → Move
  next_round : Move
  publish : Move

abbrev pub move : Move → Social → Social
move (act new_id agent action) s = (execute_action new_id agent action s).1
move next_round s = tick s
move publish s = (publish_events s).1

abbrev pub play : List Move → Social → Social
play [] s = s
play (m ∷ ms) s = play ms (move m s)

-- Moves whose fresh ids are not one given id.
abbrev pub Spares : Text → Move → Type 0
Spares k (act new_id agent action) = new_id ≢ k
Spares k next_round = Unit
Spares k publish = Unit

pub record HasVoted (voter k : Text) (posts : Dict Text Post) : Type 0 where
  pub target : Post
  pub there : lookup k posts ≡ some target
  pub noted : member voter target.voters ≡ true

module _ (voter k : Text) where
  -- A write keeps the vote when it keeps the voters of the post.
  insert-HasVoted :
      (j : Text) (p : Post) (posts : Dict Text Post)
      → (j ≡ k → member voter p.voters ≡ true)
      → HasVoted voter k posts
      → HasVoted voter k (insert j p posts)
  insert-HasVoted j p posts keep h = elim (Bool-cases (text_eq k j)) [
    | inl same ↦
        let e : k ≡ j = (text_eq_iff k j).0 same in
        record { target = p; there = rw e (lookup-insert_self j p posts); noted = keep (sym e) }
    | inr other ↦ record {
      target = h.target;
      there =
          lookup-insert_ne k j p posts (λ e. grind (arith, text_eq_iff k j, e, other)) ∙ h.there;
      noted = h.noted;
    }
  ]

  -- The post that a write changes still has its voters, if it was read from the posts.
  keeps :
      (j : Text) (p : Post) (voters : List Text) (posts : Dict Text Post)
      → HasVoted voter k posts
      → lookup j posts ≡ some p
      → (member voter p.voters ≡ true → member voter voters ≡ true)
      → j ≡ k
      → member voter voters ≡ true
  keeps j p voters posts h l grow e =
      let same : p ≡ h.target = some-injective (sym l ∙ ap (λ i. lookup i posts) e ∙ h.there) in
      grow (rw same h.noted)

  vote_found-HasVoted :
      (j : Text) (agent : Agent) (value : ℤ) (p : Post) (s : Social)
      → lookup j s.posts ≡ some p
      → HasVoted voter k s.posts
      → HasVoted voter k (vote_found j agent value p s).1.posts
  vote_found-HasVoted j agent value p s l h = elim (Bool-cases (member agent.id p.voters)) [
    | inl old ↦ rw old h
    | inr new ↦ rw new (
        insert-HasVoted j (vote_on agent.id value p) s.posts
          (keeps j p (vote_on agent.id value p).voters s.posts h l
            (λ m. ground (arith, member-add_old voter agent.id p.voters m)))
          h)
  ]

  handle_vote-HasVoted :
      (agent : Agent) (args : Args) (s : Social)
      → HasVoted voter k s.posts
      → HasVoted voter k (handle_vote agent args s).1.posts
  unfolding handle_vote
  handle_vote-HasVoted agent args s h =
      elim (Option-cases (lookup (get_or args.post_id []) s.posts)) [
        | inl e ↦ rw (e, handle_vote) h
        | inr (p, e) ↦
            rw (e, handle_vote)
              (vote_found-HasVoted (get_or args.post_id []) agent (get_or args.value (pos 1)) p s e
                h)
      ]

  handle_repost-HasVoted :
      (args : Args) (s : Social)
      → HasVoted voter k s.posts
      → HasVoted voter k (handle_repost args s).1.posts
  unfolding handle_repost
  handle_repost-HasVoted args s h = elim (Option-cases (lookup (get_or args.post_id []) s.posts)) [
    | inl e ↦ rw (e, handle_repost) h
    | inr (p, e) ↦
        rw (e, handle_repost)
          (insert-HasVoted (get_or args.post_id []) (record p { reposts = p.reposts + 1 }) s.posts
            (keeps (get_or args.post_id []) p p.voters s.posts h e (λ m. m)) h)
  ]

  handle_reply-HasVoted :
      (new_id : Text) (agent : Agent) (args : Args) (s : Social)
      → new_id ≢ k
      → HasVoted voter k s.posts
      → HasVoted voter k (handle_reply new_id agent args s).1.posts
  unfolding handle_reply
  handle_reply-HasVoted new_id agent args s n h =
      let parent = get_or args.post_id [] in
      elim (Bool-cases (is_some (lookup parent s.posts))) [
        | inl e ↦ rw e (
            insert-HasVoted new_id (new_post new_id agent args (some parent) s) s.posts
              (λ q. absurd (n q)) h)
        | inr e ↦ rw e h
      ]

  handle_create_post-HasVoted :
      (new_id : Text) (agent : Agent) (args : Args) (s : Social)
      → new_id ≢ k
      → HasVoted voter k s.posts
      → HasVoted voter k (handle_create_post new_id agent args s).1.posts
  unfolding handle_create_post
  handle_create_post-HasVoted new_id agent args s n h =
      insert-HasVoted new_id (new_post new_id agent args none s) s.posts (λ q. absurd (n q)) h

  handle_follow-HasVoted :
      (agent : Agent) (args : Args) (s : Social)
      → HasVoted voter k s.posts
      → HasVoted voter k (handle_follow agent args s).1.posts
  unfolding handle_follow
  handle_follow-HasVoted agent args s h = h

  tick-HasVoted : (s : Social) → HasVoted voter k s.posts → HasVoted voter k (tick s).posts
  unfolding tick
  tick-HasVoted s h = h

  publish-HasVoted :
      (s : Social) → HasVoted voter k s.posts → HasVoted voter k (publish_events s).1.posts
  unfolding publish_events
  publish-HasVoted s h = h

  move-HasVoted :
      (m : Move) (s : Social)
      → Spares k m
      → HasVoted voter k s.posts
      → HasVoted voter k (move m s).posts
  move-HasVoted (act new_id agent action) s n h =
      execute_action-cases (λ r. HasVoted voter k r.1.posts) new_id agent action s
        (handle_create_post-HasVoted new_id agent action.args s n h)
        (handle_reply-HasVoted new_id agent action.args s n h)
        (handle_vote-HasVoted agent action.args s h) (handle_repost-HasVoted action.args s h)
        (handle_follow-HasVoted agent action.args s h) h h
  move-HasVoted next_round s n h = tick-HasVoted s h
  move-HasVoted publish s n h = publish-HasVoted s h

  play-HasVoted :
      (ms : List Move) (s : Social)
      → All (Spares k) ms
      → HasVoted voter k s.posts
      → HasVoted voter k (play ms s).posts
  play-HasVoted [] s n h = h
  play-HasVoted (m ∷ ms) s n h = play-HasVoted ms (move m s) n.1 (move-HasVoted m s n.0 h)

-- A vote that the environment takes is noted.
vote_taken :
    (agent : Agent) (args : Args) (s : Social)
    → (handle_vote agent args s).0.success ≡ true
    → HasVoted agent.id (get_or args.post_id []) (handle_vote agent args s).1.posts
unfolding handle_vote
vote_taken agent args s t = elim (Option-cases (lookup (get_or args.post_id []) s.posts)) [
  | inl e ↦ ground (arith, t, e)
  | inr (p, e) ↦ elim (Bool-cases (member agent.id p.voters)) [
    | inl old ↦ ground (arith, t, e, old)
    | inr new ↦ record {
      target = vote_on agent.id (get_or args.value (pos 1)) p;
      there =
          rw (e, handle_vote)
            (rw new (
              lookup-insert_self (get_or args.post_id [])
                (vote_on agent.id (get_or args.value (pos 1)) p) s.posts));
      noted = ground (arith, member-add_self agent.id p.voters);
    }
  ]
]

-- A second vote is refused.
vote_refused :
    (agent : Agent) (args : Args) (s : Social)
    → HasVoted agent.id (get_or args.post_id []) s.posts
    → handle_vote agent args s ≡ (failure (codes "Already voted"), s)
unfolding handle_vote
vote_refused agent args s h = rw (h.there, handle_vote) (rw h.noted refl)

-- Once an agent's vote on a post is taken, each further vote of that agent on that post is refused
-- and changes nothing, whatever happens in between, as long as no new post is given that post's id.
pub vote_lasts :
    (agent : Agent) (first again : Args) (ms : List Move) (s : Social)
    → get_or first.post_id [] ≡ get_or again.post_id []
    → (handle_vote agent first s).0.success ≡ true
    → All (Spares (get_or first.post_id [])) ms
    → let later = play ms (handle_vote agent first s).1 in
      handle_vote agent again later ≡ (failure (codes "Already voted"), later)
vote_lasts agent first again ms s e t n =
    let later = play ms (handle_vote agent first s).1 in
    vote_refused agent again later (
      subst (λ i. HasVoted agent.id i later.posts) e
        (play-HasVoted agent.id (get_or first.post_id []) ms (handle_vote agent first s).1 n
          (vote_taken agent first s t)))
