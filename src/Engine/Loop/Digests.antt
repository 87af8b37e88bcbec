-- ===== src/Engine/Loop/Digests.antt =====
-- simswarm/engine.py and bridge.py: which events an agent is told of.
use sim_swarm.Prelude.{
  ℕ, zero, suc, ◌+◌, ◌≡◌, refl, sym, ap, subst, ◌∙◌, List, [], ◌∷◌, ◌++◌, map, All, All-image,
  length, Option-cases, inl, inr, OnSome, OnSome-map, append_assoc, append-nil,
}
use sim_swarm.Prelude.Text.{Text}
use sim_swarm.Prelude.Dict.{Dict, text_Eq, keys, All-lookup}
use sim_swarm.Engine.Types.{Agent}
use sim_swarm.Engine.Number.{Number}
use sim_swarm.Engine.Value.{Observation}
use sim_swarm.Engine.Bridge.{Bridge, inject_scheduled, clear}
use sim_swarm.Engine.Loop.State.{
  Environment, Participant, SimulationConfig, Outside, Sim, create_agents,
}
use sim_swarm.Engine.Loop.Step.{observe_all, observe, shown_extras, step_all}
use sim_swarm.Engine.Loop.Rounds.{gather, publish_all, close_round, play_round, play_rounds, run}
use sim_swarm.Engine.Loop.Environments.{keys-observe, observe_all-keys, step_all-keys}
use sim_swarm.Engine.Loop.Agents.{
  IsPlaced, Placed, create_agents-IsPlaced, step_all-All, step_agent-IsPlaced, gather-IsPlaced,
  keys-gather, keys-map, keys-believe, believe-IsPlaced,
}

module _ {N S : Type 0} (num : Number N) (env : Environment S) (out : Outside N)
    (config : SimulationConfig) (names : List Text) where
  -- What an agent is shown in a round: what the environments of the run tell it, one after the other, in
  -- the state in which they then are; a digest of the events scheduled for this round; and the scenario's
  -- variables.
  pub record IsTold (round_num : ℕ) (x : Text × List Observation) : Type 0 where
    pub agent : Agent
    pub named : agent.id ≡ x.0
    pub envs : Dict Text S
    pub whole : keys envs ≡ names
    pub told :
        x.1
        ≡ (observe env out config agent names envs).0
          ++ shown_extras env out config names
              (inject_scheduled config.scheduled_events round_num [])

  -- What is shown in the rounds from one on: to each agent, and to no other, what it is to be told.
  abbrev pub ToldFrom : ℕ → List Text → List (Dict Text (List Observation)) → Type 0
  ToldFrom round_num ids [] = Unit
  ToldFrom round_num ids (seen ∷ rest) =
      (keys seen ≡ ids) × All (IsTold round_num) seen × ToldFrom (round_num + 1) ids rest

  -- Between two rounds the bridge is empty, and the agents are in place.
  pub record IsBetween (sim : Sim N S) : Type 0 where
    pub quiet : sim.bridge ≡ []
    pub known : keys sim.environments ≡ names
    pub placed : All (IsPlaced names config.max_memory_rounds) sim.agents

  -- What a round adds to what was shown.
  pub record Adds (round_num : ℕ) (before after : Sim N S) : Type 0 where
    pub between : IsBetween after
    pub same_agents : keys after.agents ≡ keys before.agents
    pub seen : Dict Text (List Observation)
    pub everyone : keys seen ≡ keys before.agents
    pub appended : after.shown ≡ before.shown ++ seen ∷ []
    pub told : All (IsTold round_num) seen

  -- What the rounds from one on add.
  pub record Continues (left round_num : ℕ) (ids : List Text)
      (before : List (Dict Text (List Observation))) (after : Sim N S) : Type 0 where
    pub news : List (Dict Text (List Observation))
    pub appended : after.shown ≡ before ++ news
    pub all_rounds : length news ≡ left
    pub told : ToldFrom round_num ids news

  observe_all-IsTold :
      (round_num : ℕ) (agents : Dict Text (Participant N)) (envs : Dict Text S)
      → All (IsPlaced names config.max_memory_rounds) agents
      → keys envs ≡ names
      → All
          (IsTold round_num)
          (observe_all env out config agents
            (inject_scheduled config.scheduled_events round_num [])
            envs).0
  unfolding observe_all
  observe_all-IsTold round_num [] envs h w = tt
  observe_all-IsTold round_num ((id, p) ∷ agents) envs h w =
      let (obs, envs2) = observe env out config p.agent p.environments envs in
      (
        record {
          agent = p.agent;
          named = h.0.named;
          envs = envs;
          whole = w;
          told = rw h.0.placed refl;
        },
        observe_all-IsTold round_num agents envs2 h.1
            (keys-observe env out config p.agent p.environments envs ∙ w),
      )

  keys-observe_all :
      (agents : Dict Text (Participant N)) (bridge : Bridge) (envs : Dict Text S)
      → keys (observe_all env out config agents bridge envs).0 ≡ keys agents
  unfolding observe_all
  keys-observe_all [] bridge envs = refl
  keys-observe_all ((id, p) ∷ agents) bridge envs =
      ap (λ ids. id ∷ ids)
        (keys-observe_all agents bridge (observe env out config p.agent p.environments envs).1)

  step_all-Placed :
      (round_num : ℕ) (agents : Dict Text (Participant N)) (seen : Dict Text (List Observation))
      → All (Placed env out config names) agents
      → (ids : List Text) (envs : Dict Text S)
      → OnSome
          (λ x. All (λ y. Placed env out config names (y.0, y.1.1)) x.0)
          (step_all env out config round_num ids agents seen envs)
  step_all-Placed round_num agents seen h ids envs =
      step_all-All env out config names (λ y. Placed env out config names (y.0, y.1.1)) round_num
        agents seen
        (λ id p obs envs2 l.
          step_agent-IsPlaced env out config names id round_num p obs envs2
            (All-lookup (Placed env out config names) id p agents l h))
        ids envs

  Continues-first :
      (left round_num : ℕ) (before sim2 after : Sim N S)
      → Adds round_num before sim2
      → Continues left (round_num + 1) (keys before.agents) sim2.shown after
      → Continues (suc left) round_num (keys before.agents) before.shown after
  Continues-first left round_num before sim2 after a k = record {
    news = a.seen ∷ k.news;
    appended =
        k.appended
        ∙ ap (λ s. s ++ k.news) a.appended
        ∙ append_assoc before.shown (a.seen ∷ []) k.news;
    all_rounds = ap suc k.all_rounds;
    told = (a.everyone, a.told, k.told);
  }

  pub play_round-Between :
      (round_num : ℕ) (sim : Sim N S)
      → IsBetween sim
      → OnSome (Adds round_num sim) (play_round num env out config round_num sim)
  unfolding play_round close_round clear publish_all
  play_round-Between round_num sim h =
      let bridge = inject_scheduled config.scheduled_events round_num sim.bridge in
      let (seen, envs) = observe_all env out config sim.agents bridge sim.environments in
      let ids = out.finish_order round_num (keys sim.agents) in
      let steps = step_all env out config round_num ids sim.agents seen envs in
      elim (Option-cases steps) [
        | inl n ↦ rw (n, play_round) tt
        | inr (r, e) ↦
            let stepped =
              subst (OnSome (λ x. All (λ y. Placed env out config names (y.0, y.1.1)) x.0)) e
                (step_all-Placed round_num sim.agents seen h.placed ids envs) in
            let same =
              subst (OnSome (λ x. keys x.1 ≡ keys envs)) e
                (step_all-keys env out config round_num sim.agents seen ids envs) in
            rw (e, play_round)
              (record {
                between = record {
                  quiet = refl;
                  known =
                      keys-map (λ x. (x.0, (env.publish_events x.1).1)) (λ x. refl)
                        (map (λ x. (x.0, env.tick x.1)) r.1)
                      ∙ keys-map (λ x. (x.0, env.tick x.1)) (λ x. refl) r.1
                      ∙ same
                      ∙ observe_all-keys env out config sim.agents bridge sim.environments
                      ∙ h.known;
                  placed = believe-IsPlaced env out config names num _ _ _ (
                      All-image (Placed env out config names) _ (gather sim.agents r.0)
                        (gather-IsPlaced env out config names sim.agents r.0 h.placed stepped));
                };
                same_agents =
                    keys-believe num env out config _ _ _
                    ∙ keys-map _ (λ x. refl) (gather sim.agents r.0)
                    ∙ keys-gather sim.agents r.0;
                seen = seen;
                everyone = keys-observe_all sim.agents bridge sim.environments;
                appended = refl;
                told =
                    subst
                      (λ b.
                        All (IsTold round_num)
                          (observe_all env out config sim.agents
                            (inject_scheduled config.scheduled_events round_num b)
                            sim.environments).0)
                      (sym h.quiet)
                      (observe_all-IsTold round_num sim.agents sim.environments h.placed h.known);
              })
      ]

  play_rounds-Continues :
      (left round_num : ℕ) (sim : Sim N S)
      → IsBetween sim
      → OnSome
          (Continues left round_num (keys sim.agents) sim.shown)
          (play_rounds num env out config left round_num sim)
  unfolding play_rounds
  play_rounds-Continues zero round_num sim h = record {
    news = [];
    appended = sym (append-nil sim.shown);
    all_rounds = refl;
    told = tt;
  }
  play_rounds-Continues (suc left) round_num sim h =
      let first = play_round-Between round_num sim h in
      elim (Option-cases (play_round num env out config round_num sim)) [
        | inl n ↦ rw (n, play_rounds) tt
        | inr (sim2, e) ↦
            let a : Adds round_num sim sim2 = subst (OnSome (Adds round_num sim)) e first in
            rw (e, play_rounds)
              (OnSome-map (Continues left (round_num + 1) (keys sim2.agents) sim2.shown)
                (Continues (suc left) round_num (keys sim.agents) sim.shown)
                (λ after k. Continues-first left round_num sim sim2 after a (
                  subst (λ ids. Continues left (round_num + 1) ids sim2.shown after) a.same_agents
                    k))
                (play_rounds num env out config left (round_num + 1) sim2)
                (play_rounds-Continues left (round_num + 1) sim2 a.between))
      ]

-- Whatever the environments publish, a run that returns has shown something in each round of the
-- configuration, to each agent that was created: what each environment of the run told it, in some
-- state of theirs, and besides only a digest of the events scheduled for that very round, and the
-- variables.
pub run-shows_scheduled :
    {N S : Type 0} (num : Number N) (env : Environment S) (out : Outside N)
    (config : SimulationConfig) (environments : Dict Text S)
    → let names = keys environments in
      let ids = keys (create_agents {N = N} config.entities names []) in
      OnSome
        (λ sim.
          (length sim.shown ≡ config.rounds) × ToldFrom num env out config names 1 ids sim.shown)
        (run num env out config environments)
unfolding run
run-shows_scheduled {N} num env out config environments =
    let names = keys environments in
    let ids = keys (create_agents {N = N} config.entities names []) in
    OnSome-map (Continues num env out config names config.rounds 1 ids []) _
      (λ after k. (
        ap length k.appended ∙ k.all_rounds,
        subst (ToldFrom num env out config names 1 ids) (sym k.appended) k.told,
      ))
      _
      (play_rounds-Continues num env out config names config.rounds 1 _ (record {
        quiet = refl;
        known = refl;
        placed = create_agents-IsPlaced names config.max_memory_rounds config.entities [] tt;
      }))
