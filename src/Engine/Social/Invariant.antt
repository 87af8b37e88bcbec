-- ===== src/Engine/Social/Invariant.antt =====
-- simswarm/environments/social.py: what every operation keeps true of the posts.
use sim_swarm.Prelude.{
  ◌+◌, ◌≡◌, refl, true, false, Option, none, some, is_some, get_or, All, All-map, [], if-both, ◌++◌,
  length, arith, Bool-cases, Option-cases, inl, inr,
}
use sim_swarm.Prelude.Int.{ℤ, pos, ltb_ℤ}
use sim_swarm.Prelude.Text.{Text, codes}
use sim_swarm.Prelude.Dict.{
  Dict, text_Eq, lookup, insert, member, All-insert, All-lookup, is_some-lookup-insert, Distinct,
  Distinct-add, length-add_new, keys, Distinct-keys-insert,
}
use sim_swarm.Engine.Types.{Agent}
use sim_swarm.Engine.Social.{
  Post, Social, Args, Action, Step, vote_on, handle_create_post, handle_reply, handle_vote,
  handle_repost, handle_follow, execute_action, new_post, vote_found, success, failure, nothing,
}

-- The parent of a post is a post.
abbrev pub HasParent : Dict Text Post → Option Text → Type 0
HasParent posts none = Unit
HasParent posts (some parent) = is_some (lookup parent posts) ≡ true

-- One post among the posts: it stands under its own id, each voter counts once, and its parent
-- is there.
pub record PostIsSound (posts : Dict Text Post) (e : Text × Post) : Type 0 where
  pub named : e.1.id ≡ e.0
  pub counted : e.1.likes + e.1.dislikes ≡ length e.1.voters
  pub once : Distinct e.1.voters
  pub parented : HasParent posts e.1.parent_id

pub record IsSound (s : Social) : Type 0 where
  pub unique : Distinct (keys s.posts)
  pub sound : All (PostIsSound s.posts) s.posts

HasParent-insert :
    (k : Text) (p : Post) (posts : Dict Text Post) (o : Option Text)
    → HasParent posts o
    → HasParent (insert k p posts) o
HasParent-insert k p posts none h = tt
HasParent-insert k p posts (some q) h = is_some-lookup-insert q k p posts h

-- A write of a sound post keeps the posts sound.
insert-IsSound :
    (k : Text) (p : Post) (s : Social)
    → PostIsSound s.posts (k, p)
    → IsSound s
    → IsSound (record s { posts = insert k p s.posts })
insert-IsSound k p s g h =
    let widen : (e : Text × Post) → PostIsSound s.posts e → PostIsSound (insert k p s.posts) e =
      λ e x. record {
        named = x.named;
        counted = x.counted;
        once = x.once;
        parented = HasParent-insert k p s.posts e.1.parent_id x.parented;
      } in
    record {
      unique = Distinct-keys-insert k p s.posts h.unique;
      sound =
          All-insert (PostIsSound (insert k p s.posts)) k p s.posts (widen (k, p) g) (
            All-map (PostIsSound s.posts) (PostIsSound (insert k p s.posts)) widen s.posts h.sound);
    }

found-IsSound :
    (k : Text) (p : Post) (s : Social)
    → lookup k s.posts ≡ some p
    → IsSound s
    → PostIsSound s.posts (k, p)
found-IsSound k p s l h = All-lookup (PostIsSound s.posts) k p s.posts l h.sound

new_post-IsSound :
    (new_id : Text) (agent : Agent) (args : Args) (parent : Option Text) (s : Social)
    → HasParent s.posts parent
    → PostIsSound s.posts (new_id, new_post new_id agent args parent s)
new_post-IsSound new_id agent args parent s h = record {
  named = refl;
  counted = refl;
  once = tt;
  parented = h;
}

vote_on-IsSound :
    (k voter : Text) (value : ℤ) (p : Post) (posts : Dict Text Post)
    → member voter p.voters ≡ false
    → PostIsSound posts (k, p)
    → PostIsSound posts (k, vote_on voter value p)
vote_on-IsSound k voter value p posts n h = elim (Bool-cases (ltb_ℤ (pos 0) value)) [
  | inl up ↦ rw up (record {
    named = h.named;
    counted = omega (arith, h.counted, length-add_new voter p.voters n);
    once = Distinct-add voter p.voters h.once;
    parented = h.parented;
  })
  | inr down ↦ rw down (record {
    named = h.named;
    counted = omega (arith, h.counted, length-add_new voter p.voters n);
    once = Distinct-add voter p.voters h.once;
    parented = h.parented;
  })
]

vote_found-IsSound :
    (k : Text) (agent : Agent) (value : ℤ) (p : Post) (s : Social)
    → lookup k s.posts ≡ some p
    → IsSound s
    → IsSound (vote_found k agent value p s).1
vote_found-IsSound k agent value p s l h = elim (Bool-cases (member agent.id p.voters)) [
  | inl old ↦ rw old h
  | inr new ↦ rw new (
      insert-IsSound k (vote_on agent.id value p) s
        (vote_on-IsSound k agent.id value p s.posts new (found-IsSound k p s l h)) h)
]

handle_vote-IsSound :
    (agent : Agent) (args : Args) (s : Social) → IsSound s → IsSound (handle_vote agent args s).1
unfolding handle_vote
handle_vote-IsSound agent args s h = elim (Option-cases (lookup (get_or args.post_id []) s.posts)) [
  | inl e ↦ rw (e, handle_vote) h
  | inr (p, e) ↦
      rw (e, handle_vote)
        (vote_found-IsSound (get_or args.post_id []) agent (get_or args.value (pos 1)) p s e h)
]

handle_repost-IsSound : (args : Args) (s : Social) → IsSound s → IsSound (handle_repost args s).1
unfolding handle_repost
handle_repost-IsSound args s h = elim (Option-cases (lookup (get_or args.post_id []) s.posts)) [
  | inl e ↦ rw (e, handle_repost) h
  | inr (p, e) ↦
      let g = found-IsSound (get_or args.post_id []) p s e h in
      rw (e, handle_repost)
        (insert-IsSound (get_or args.post_id []) (record p { reposts = p.reposts + 1 }) s
          (record { named = g.named; counted = g.counted; once = g.once; parented = g.parented }) h)
]

handle_reply-IsSound :
    (new_id : Text) (agent : Agent) (args : Args) (s : Social)
    → IsSound s
    → IsSound (handle_reply new_id agent args s).1
unfolding handle_reply
handle_reply-IsSound new_id agent args s h =
    let parent = get_or args.post_id [] in
    elim (Bool-cases (is_some (lookup parent s.posts))) [
      | inl e ↦ rw e (
          insert-IsSound new_id (new_post new_id agent args (some parent) s) s
            (new_post-IsSound new_id agent args (some parent) s e) h)
      | inr e ↦ rw e h
    ]

handle_follow-IsSound :
    (agent : Agent) (args : Args) (s : Social) → IsSound s → IsSound (handle_follow agent args s).1
unfolding handle_follow
handle_follow-IsSound agent args s h = record { unique = h.unique; sound = h.sound }

-- What holds of every handler's outcome, and of the two failures, holds of every action's.
pub execute_action-cases {κ} :
    (P : Step → Type κ) (new_id : Text) (agent : Agent) (action : Action) (s : Social)
    → P (handle_create_post new_id agent action.args s)
    → P (handle_reply new_id agent action.args s)
    → P (handle_vote agent action.args s)
    → P (handle_repost action.args s)
    → P (handle_follow agent action.args s)
    → P (success nothing, s)
    → P (failure (codes "Unknown action: " ++ action.action_type), s)
    → P (execute_action new_id agent action s)
unfolding execute_action
execute_action-cases P new_id agent action s a b c d e f g = if-both P _ _ _ a (
    if-both P _ _ _ b
      (if-both P _ _ _ c (if-both P _ _ _ d (if-both P _ _ _ e (if-both P _ _ _ f g)))))

handle_create_post-IsSound :
    (new_id : Text) (agent : Agent) (args : Args) (s : Social)
    → IsSound s
    → IsSound (handle_create_post new_id agent args s).1
unfolding handle_create_post
handle_create_post-IsSound new_id agent args s h =
    insert-IsSound new_id (new_post new_id agent args none s) s
      (new_post-IsSound new_id agent args none s tt) h

-- From sound posts, any action of any agent leaves the posts sound: keys are distinct, each post is
-- under its id, its likes and dislikes add up to its voters, who are distinct, and its parent exists.
pub execute_action-IsSound :
    (new_id : Text) (agent : Agent) (action : Action) (s : Social)
    → IsSound s
    → IsSound (execute_action new_id agent action s).1
execute_action-IsSound new_id agent action s h =
    execute_action-cases (λ r. IsSound r.1) new_id agent action s
      (handle_create_post-IsSound new_id agent action.args s h)
      (handle_reply-IsSound new_id agent action.args s h)
      (handle_vote-IsSound agent action.args s h) (handle_repost-IsSound action.args s h)
      (handle_follow-IsSound agent action.args s h) h h
