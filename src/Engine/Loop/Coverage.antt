-- ===== src/Engine/Loop/Coverage.antt =====
-- simswarm/engine.py: the chat log and the snapshots against the rounds and the agents.
use sim_swarm.Prelude.{
  ℕ, ◌≡◌, refl, subst, ◌∙◌, Bool, true, List, [], ◌∷◌, ◌++◌, ◌&&◌, ◌==◌, ==_iff, All, All-map,
  All-image, any, any-append, arith, Option-cases, Bool-cases, inl, inr, OnSome, map, length,
  is_some, get_or,
}
use sim_swarm.Prelude.Text.{Text, text_eq, text_eq_iff}
use sim_swarm.Prelude.Dict.{Dict, text_Eq, lookup, member, keys, All-lookup, keys-found}
use sim_swarm.Engine.Number.{Number}
use sim_swarm.Engine.Value.{ActionRecord, Observation}
use sim_swarm.Engine.Bridge.{inject_scheduled}
use sim_swarm.Engine.Loop.State.{
  Environment, Participant, SimulationConfig, Call, Outside, Sim, Stepped, concat,
}
use sim_swarm.Engine.Loop.Step.{
  observe_all, find_env_for_action, execute, remembering, perform, step_answered, step_agent,
  step_all,
}
use sim_swarm.Engine.Loop.Rounds.{gather, close_round, play_round}
use sim_swarm.Engine.Loop.Agents.{Placed, step_all-All, keys-gather, keys-map, keys-believe}
use sim_swarm.Engine.Loop.Digests.{IsBetween}

-- A record of an agent's action in a round.
abbrev pub is_of : ℕ → Text → ActionRecord → Bool
is_of round_num id r = r.round_num == round_num && text_eq r.agent_id id

-- Some record is of the agent and the round.
abbrev pub Acts : ℕ → Text → List ActionRecord → Type 0
Acts round_num id records = any (is_of round_num id) records ≡ true

-- The order in which the steps of a round finish lists every agent.
abbrev pub Finishes : {N : Type 0} → Outside N → Type 0
Finishes out =
    (round_num : ℕ) (ids : List Text) (id : Text)
    → member id ids ≡ true
    → member id (out.finish_order round_num ids) ≡ true

module _ {N S : Type 0} (env : Environment S) (out : Outside N) (config : SimulationConfig) where
  perform-Acts :
      (round_num : ℕ) (id : Text) (call : Call) (calls : List Call) (p : Participant N)
      (envs : Dict Text S)
      → p.agent.id ≡ id
      → OnSome (λ s. Acts round_num id s.0) (perform env out config round_num p (call ∷ calls) envs)
  unfolding perform
  perform-Acts round_num id call calls p envs e =
      let target =
        find_env_for_action env out config call.name p.environments p.environments envs in
      elim (Option-cases (execute env out config p.agent target call envs)) [
        | inl n ↦ rw (n, perform) tt
        | inr (done, d) ↦
            let p2 = remembering env out config round_num p call in
            rw (d, perform)
              (elim (Option-cases (perform env out config round_num p2 calls done.2)) [
                | inl n ↦ rw n tt
                | inr (s, f) ↦
                    rw f (ground (arith, e, text_eq_iff p.agent.id id, ==_iff round_num round_num))
              ])
      ]

  step_agent-Acts :
      (round_num : ℕ) (id : Text) (p : Participant N) (obs : List Observation) (envs : Dict Text S)
      → p.agent.id ≡ id
      → OnSome (λ s. Acts round_num id s.0) (step_agent env out config round_num p obs envs)
  unfolding step_agent step_answered
  step_agent-Acts round_num id p obs envs e = elim (Option-cases (out.chat round_num p obs)) [
    | inl n ↦ rw (n, step_agent) tt
    | inr ([], c) ↦
        rw (c, step_agent)
          (ground (arith, e, text_eq_iff p.agent.id id, ==_iff round_num round_num))
    | inr (call ∷ calls, c) ↦ rw (c, step_agent) (perform-Acts round_num id call calls p envs e)
  ]

  -- Each agent among those that finish has a result.
  step_all-finds :
      (round_num : ℕ) (agents : Dict Text (Participant N)) (seen : Dict Text (List Observation))
      (id : Text)
      → is_some (lookup id agents) ≡ true
      → (ids : List Text) (envs : Dict Text S) → member id ids ≡ true
      → OnSome
          (λ r. is_some (lookup id r.0) ≡ true)
          (step_all env out config round_num ids agents seen envs)
  unfolding step_all member lookup
  step_all-finds round_num agents seen id known [] envs m = ground (arith, m)
  step_all-finds round_num agents seen id known (j ∷ ids) envs m =
      elim (Option-cases (lookup j agents)) [
        | inl n ↦
            rw (n, step_all)
              (step_all-finds round_num agents seen id known ids envs
                (ground (arith, m, n, known, text_eq_iff id j)))
        | inr (p, l) ↦
            rw (l, step_all)
              (elim (Option-cases
                (step_agent env out config round_num p (get_or (lookup j seen) []) envs)) [
                  | inl c ↦ rw c tt
                  | inr (s, c) ↦
                      let rest = step_all-finds round_num agents seen id known ids s.2 in
                      rw c
                        (elim (Option-cases
                          (step_all env out config round_num ids agents seen s.2)) [
                            | inl n ↦ rw n tt
                            | inr (r, e) ↦ rw e (elim (Bool-cases (text_eq id j)) [
                              | inl y ↦ ground (arith, y)
                              | inr n ↦
                                  let k =
                                    subst (OnSome (λ x. is_some (lookup id x.0) ≡ true)) e
                                      (rest (ground (arith, m, n))) in
                                  ground (arith, n, k)
                            ])
                          ])
                ])
      ]

-- The records of all results have those of each.
concat-Acts :
    {N : Type 0} (round_num : ℕ) (results : Dict Text (Stepped N))
    → All (λ x. Acts round_num x.0 x.1.0) results
    → All (λ id. Acts round_num id (concat (map (λ x. x.1.0) results))) (keys results)
concat-Acts round_num [] h = tt
concat-Acts round_num ((id, r) ∷ results) h =
    let rest = concat (map (λ x. x.1.0) results) in
    (
      ground (arith, h.0, any-append (is_of round_num id) r.0 rest),
      All-map _ _ (λ j k. ground (arith, k, any-append (is_of round_num j) r.0 rest)) (keys results)
          (concat-Acts round_num results h.1),
    )

gather-Acts :
    {N : Type 0} (round_num : ℕ) (agents : Dict Text (Participant N))
    (stepped : Dict Text (Stepped N))
    → All (λ a. is_some (lookup a.0 stepped) ≡ true) agents
    → All (λ x. Acts round_num x.0 x.1.0) stepped
    → All (λ x. Acts round_num x.0 x.1.0) (gather agents stepped)
unfolding gather
gather-Acts round_num agents stepped h k =
    All-image (λ x. Acts round_num x.0 x.1.0) _ agents
      (All-map _ _
        (λ a f. elim (Option-cases (lookup a.0 stepped)) [
          | inl n ↦ ground (arith, f, n)
          | inr (s, l) ↦ rw l (All-lookup (λ x. Acts round_num x.0 x.1.0) a.0 s stepped l k)
        ])
        agents h)

-- What a round adds to the log and the snapshots: the agents stay, each of them acts, and the
-- snapshot counts the records.
pub record Logs {N S : Type 0} (round_num : ℕ) (before after : Sim N S) : Type 0 where
  pub same_agents : keys after.agents ≡ keys before.agents
  pub records : List ActionRecord
  pub logged : after.chat_log ≡ before.chat_log ++ records
  pub counted : after.snapshots ≡ before.snapshots ++ (round_num, length records) ∷ []
  pub acts : All (λ id. Acts round_num id records) (keys before.agents)

module _ {N S : Type 0} (num : Number N) (env : Environment S) (out : Outside N)
    (config : SimulationConfig) (names : List Text) where
  pub play_round-Logs :
      (round_num : ℕ) (sim : Sim N S)
      → Finishes out
      → IsBetween num env out config names sim
      → OnSome (Logs round_num sim) (play_round num env out config round_num sim)
  unfolding play_round close_round
  play_round-Logs round_num sim finishes h =
      let bridge = inject_scheduled config.scheduled_events round_num sim.bridge in
      let (seen, envs) = observe_all env out config sim.agents bridge sim.environments in
      let ids = out.finish_order round_num (keys sim.agents) in
      elim (Option-cases (step_all env out config round_num ids sim.agents seen envs)) [
        | inl n ↦ rw (n, play_round) tt
        | inr (r, e) ↦
            let acted = subst (OnSome (λ x. All (λ y. Acts round_num y.0 y.1.0) x.0)) e (
              step_all-All env out config names (λ y. Acts round_num y.0 y.1.0) round_num sim.agents
                seen
                (λ id p obs envs2 l.
                  step_agent-Acts env out config round_num id p obs envs2
                    (All-lookup (Placed env out config names) id p sim.agents l h.placed).named)
                ids envs) in
            let found =
              All-map _ _
                (λ a k. subst (OnSome (λ x. is_some (lookup a.0 x.0) ≡ true)) e (
                  step_all-finds env out config round_num sim.agents seen a.0 k.1 ids envs
                    (finishes round_num (keys sim.agents) a.0 k.0)))
                sim.agents (keys-found sim.agents) in
            rw (e, play_round)
              (record {
                same_agents =
                    keys-believe num env out config _ _ _
                    ∙ keys-map _ (λ x. refl) (gather sim.agents r.0)
                    ∙ keys-gather sim.agents r.0;
                records = concat (map (λ x. x.1.0) (gather sim.agents r.0));
                logged = refl;
                counted = refl;
                acts =
                    subst
                      (All (λ id.
                        Acts round_num id (concat (map (λ x. x.1.0) (gather sim.agents r.0)))))
                      (keys-gather sim.agents r.0)
                      (concat-Acts round_num (gather sim.agents r.0)
                        (gather-Acts round_num sim.agents r.0 found acted));
              })
      ]
