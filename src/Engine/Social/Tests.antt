-- ===== src/Engine/Social/Tests.antt =====
-- simswarm/environments/social.py at concrete inputs.
use sim_swarm.Prelude.{arith, ◌≡◌, refl, true, List, [], ◌∷◌, none, some, ◌≢◌}
use sim_swarm.Prelude.Int.{pos, negsuc}
use sim_swarm.Prelude.Text.{codes, text_eq}
use sim_swarm.Prelude.Dict.{text_Eq, lookup, member, add, keys}
use sim_swarm.Engine.Types.{Agent}
use sim_swarm.Engine.Social.{Social, Args, Action, failure, handle_vote, execute_action, tick}
use sim_swarm.Engine.Social.Invariant.{IsSound, execute_action-IsSound}
use sim_swarm.Engine.Social.Votes.{Move, act, next_round, publish, play, vote_lasts}
use sim_swarm.Engine.Social.Announce.{due, events_of, tick_announces}

abbrev ann : Agent
ann = record { id = codes "a1"; name = codes "Ann" }

abbrev no_args : Args
no_args = record { text = none; post_id = none; value = none; agent_id = none }

abbrev up : Args
up = record no_args { post_id = some (codes "p1"); value = some (pos 1) }

abbrev down : Args
down = record no_args { post_id = some (codes "p1"); value = some (negsuc 0) }

abbrev reply_to_p1 : Action
reply_to_p1 = record { action_type = codes "reply"; args = record up { text = some (codes "yes") } }

-- One post with two likes, at a threshold of two.
abbrev popular : Social
popular = record {
  config = record { viral_threshold = 2 };
  current_round = 4;
  posts =
      (
        codes "p1",
        record {
          id = codes "p1";
          author_id = codes "a9";
          author_name = codes "Zoe";
          text = codes "hello";
          parent_id = none;
          likes = 2;
          dislikes = 0;
          reposts = 0;
          created_round = 1;
          voters = codes "a2" ∷ codes "a3" ∷ [];
        },
      )
      ∷ [];
  follows = [];
  pending_events = [];
  new_viral = [];
}

popular-IsSound : IsSound popular
unfolding member text_eq
popular-IsSound = record {
  unique = (refl, tt);
  sound = (record { named = refl; counted = refl; once = (refl, (refl, tt)); parented = tt }, tt);
}

execute_action-IsSound_example : IsSound (execute_action (codes "p2") ann reply_to_p1 popular).1
execute_action-IsSound_example =
    execute_action-IsSound (codes "p2") ann reply_to_p1 popular popular-IsSound

abbrev between : List Move
between = act (codes "p2") ann reply_to_p1 ∷ next_round ∷ publish ∷ []

p2-Spares : codes "p2" ≢ codes "p1"
p2-Spares e = ground (arith, e)

first_vote_counts : (handle_vote ann up popular).0.success ≡ true
unfolding handle_vote lookup member text_eq
first_vote_counts = refl

vote_lasts_example :
    handle_vote ann down (play between (handle_vote ann up popular).1)
    ≡ (failure (codes "Already voted"), play between (handle_vote ann up popular).1)
vote_lasts_example =
    vote_lasts ann up down between popular refl first_vote_counts (p2-Spares, (tt, (tt, tt)))

tick_announces_example :
    ((tick popular).pending_events ≡ events_of 2 5 (due 2 [] popular.posts))
    × ((tick popular).new_viral ≡ keys (due 2 [] popular.posts))
    × (due 2 (tick popular).new_viral popular.posts ≡ [])
tick_announces_example = tick_announces popular popular-IsSound

-- The popular post is announced, and a tick later it is not announced again.
popular_is_announced : (tick popular).new_viral ≡ codes "p1" ∷ []
unfolding tick member add
popular_is_announced = refl
