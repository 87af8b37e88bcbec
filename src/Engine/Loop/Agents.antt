-- ===== src/Engine/Loop/Agents.antt =====
-- simswarm/engine.py: what a round keeps true of the agents.
use sim_swarm.Prelude.{
  ℕ, ◌-◌, ◌≤◌, ◌<◌, ◌≡◌, refl, subst, List, [], ◌∷◌, ◌++◌, some, All, All-map, All-image, arith, ap,
  ◌∙◌, map, Bool-cases, Option-cases, inl, inr, length, length-drop, ltb, ◌==◌, get_or, OnSome,
}
use sim_swarm.Prelude.Text.{Text}
use sim_swarm.Prelude.Dict.{Dict, text_Eq, lookup, insert, keys, All-lookup, All-insert}
use sim_swarm.Engine.Number.{Number}
use sim_swarm.Engine.Value.{ActionRecord, Observation, Entity}
use sim_swarm.Engine.Loop.State.{
  Environment, Participant, SimulationConfig, Call, Outside, participant, create_agents, remember,
  Stepped,
}
use sim_swarm.Engine.Loop.Step.{
  find_env_for_action, execute, remembering, perform, step_answered, step_agent, step_all,
}
use sim_swarm.Engine.Loop.Rounds.{gather, believe}

-- The memory stays within a cap that is not zero.
remember-bounded :
    (cap : ℕ) (line : Text) (memory : List Text) → 0 < cap → length (remember cap line memory) ≤ cap
unfolding remember
remember-bounded cap line memory h = elim (Bool-cases (ltb cap (length (memory ++ line ∷ [])))) [
  | inl y ↦ elim (Bool-cases (cap == 0)) [
    | inl z ↦ ground (arith, z, h)
    | inr z ↦
        rw (y, z)
          (omega (arith, length-drop (length (memory ++ line ∷ []) - cap) (memory ++ line ∷ [])))
  ]
  | inr n ↦ rw n (ground (arith, n))
]

module _ {N : Type 0} (names : List Text) (cap : ℕ) where
  -- An agent stands under its own id, takes part in the same environments, and its memory is short.
  pub record IsPlaced (a : Text × Participant N) : Type 0 where
    pub named : a.1.agent.id ≡ a.0
    pub placed : a.1.environments ≡ names
    pub short : 0 < cap → length a.1.memory ≤ cap

  participant-IsPlaced : (e : Entity) → IsPlaced (e.id, participant names e)
  participant-IsPlaced e = record { named = refl; placed = refl; short = λ h. omega (arith, h) }

  pub create_agents-IsPlaced :
      (entities : List Entity) (agents : Dict Text (Participant N))
      → All IsPlaced agents
      → All IsPlaced (create_agents entities names agents)
  unfolding create_agents
  create_agents-IsPlaced [] agents h = h
  create_agents-IsPlaced (e ∷ entities) agents h =
      create_agents-IsPlaced entities (insert e.id (participant names e) agents)
        (All-insert IsPlaced e.id (participant names e) agents (participant-IsPlaced e) h)

module _ {N S : Type 0} (env : Environment S) (out : Outside N) (config : SimulationConfig)
    (names : List Text) where
  abbrev pub Placed : Text × Participant N → Type 0
  Placed a = IsPlaced names config.max_memory_rounds a

  -- A step keeps the agent in place.
  abbrev pub Keeps : Text → List ActionRecord × Participant N × Dict Text S → Type 0
  Keeps id s = Placed (id, s.1)

  perform-IsPlaced :
      (id : Text) (round_num : ℕ) (calls : List Call) (p : Participant N) (envs : Dict Text S)
      → Placed (id, p)
      → OnSome (Keeps id) (perform env out config round_num p calls envs)
  unfolding perform
  perform-IsPlaced id round_num [] p envs h = h
  perform-IsPlaced id round_num (call ∷ calls) p envs h =
      let target =
        find_env_for_action env out config call.name p.environments p.environments envs in
      elim (Option-cases (execute env out config p.agent target call envs)) [
        | inl n ↦ rw (n, perform) tt
        | inr (done, e) ↦
            let p2 = remembering env out config round_num p call in
            let rest = perform-IsPlaced id round_num calls p2 done.2 (record {
              named = h.named;
              placed = h.placed;
              short =
                  remember-bounded config.max_memory_rounds (out.memory_line round_num call)
                    p.memory;
            }) in
            rw (e, perform)
              (elim (Option-cases (perform env out config round_num p2 calls done.2)) [
                | inl n ↦ rw n tt
                | inr (s, f) ↦ rw f (subst (OnSome (Keeps id)) f rest)
              ])
      ]

  pub step_agent-IsPlaced :
      (id : Text) (round_num : ℕ) (p : Participant N) (obs : List Observation) (envs : Dict Text S)
      → Placed (id, p)
      → OnSome (Keeps id) (step_agent env out config round_num p obs envs)
  unfolding step_agent step_answered
  step_agent-IsPlaced id round_num p obs envs h = elim (Option-cases (out.chat round_num p obs)) [
    | inl n ↦ rw (n, step_agent) tt
    | inr ([], c) ↦ rw (c, step_agent) h
    | inr (call ∷ calls, c) ↦
        rw (c, step_agent) (perform-IsPlaced id round_num (call ∷ calls) p envs h)
  ]

  -- Every result of the steps holds a property that each step has.
  pub step_all-All {κ} :
      (P : Text × Stepped N → Type κ) (round_num : ℕ) (agents : Dict Text (Participant N))
      (seen : Dict Text (List Observation))
      → ((id : Text) (p : Participant N) (obs : List Observation) (envs : Dict Text S)
          → lookup id agents ≡ some p
          → OnSome (λ r. P (id, (r.0, r.1))) (step_agent env out config round_num p obs envs))
      → (ids : List Text) (envs : Dict Text S)
      → OnSome (λ r. All P r.0) (step_all env out config round_num ids agents seen envs)
  unfolding step_all
  step_all-All P round_num agents seen each [] envs = tt
  step_all-All P round_num agents seen each (id ∷ ids) envs =
      elim (Option-cases (lookup id agents)) [
        | inl n ↦ rw (n, step_all) (step_all-All P round_num agents seen each ids envs)
        | inr (p, l) ↦
            let obs = get_or (lookup id seen) [] in
            let own = each id p obs envs l in
            rw (l, step_all)
              (elim (Option-cases (step_agent env out config round_num p obs envs)) [
                | inl c ↦ rw c tt
                | inr (s, c) ↦
                    let rest = step_all-All P round_num agents seen each ids s.2 in
                    rw c
                      (elim (Option-cases (step_all env out config round_num ids agents seen s.2)) [
                        | inl n ↦ rw n tt
                        | inr (r, e) ↦ rw e (
                          subst (OnSome (λ x. P (id, (x.0, x.1)))) c own,
                          subst (OnSome (λ x. All P x.0)) e rest,
                        )
                      ])
              ])
      ]

  pub gather-IsPlaced :
      (agents : Dict Text (Participant N)) (stepped : Dict Text (Stepped N))
      → All Placed agents
      → All (λ x. Placed (x.0, x.1.1)) stepped
      → All (λ x. Placed (x.0, x.1.1)) (gather agents stepped)
  unfolding gather
  gather-IsPlaced agents stepped h k =
      All-image (λ x. Placed (x.0, x.1.1)) _ agents
        (All-map Placed _
          (λ a g. elim (Option-cases (lookup a.0 stepped)) [
            | inl n ↦ rw n g
            | inr (s, l) ↦ rw l (All-lookup (λ x. Placed (x.0, x.1.1)) a.0 s stepped l k)
          ])
          agents h)

  pub believe-IsPlaced :
      (num : Number N) (agents : Dict Text (Participant N)) (records : List ActionRecord)
      (likes : Dict Text (ℕ × ℕ))
      → All Placed agents
      → All Placed (believe num env out config agents records likes)
  unfolding believe
  believe-IsPlaced num agents records likes h = All-image Placed _ agents (
      All-map Placed _ (λ a g. record { named = g.named; placed = g.placed; short = g.short })
        agents h)

pub keys-gather :
    {N : Type 0} (agents : Dict Text (Participant N)) (stepped : Dict Text (Stepped N))
    → keys (gather agents stepped) ≡ keys agents
unfolding gather
keys-gather [] stepped = refl
keys-gather (a ∷ agents) stepped = ap (λ ks. a.0 ∷ ks) (keys-gather agents stepped)

pub keys-map :
    {A B : Type 0} (f : Text × A → Text × B)
    → ((a : Text × A) → (f a).0 ≡ a.0)
    → (d : Dict Text A) → keys (map f d) ≡ keys d
keys-map f h [] = refl
keys-map f h (a ∷ d) = ap (λ k. k ∷ keys (map f d)) (h a) ∙ ap (λ ks. a.0 ∷ ks) (keys-map f h d)

module _ {N S : Type 0} (num : Number N) (env : Environment S) (out : Outside N)
    (config : SimulationConfig) where
  pub keys-believe :
      (agents : Dict Text (Participant N)) (records : List ActionRecord) (likes : Dict Text (ℕ × ℕ))
      → keys (believe num env out config agents records likes) ≡ keys agents
  unfolding believe
  keys-believe agents records likes = keys-map _ (λ a. refl) agents
