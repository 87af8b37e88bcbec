-- ===== src/Engine/Loop/Environments.antt =====
-- simswarm/engine.py: the environments of a run stay the same ones, under the same names.
use sim_swarm.Prelude.{
  ℕ, ◌≡◌, refl, ◌∙◌, subst, List, [], ◌∷◌, some, Bool-cases, Option-cases, inl, inr, OnSome, arith,
  get_or,
}
use sim_swarm.Prelude.Text.{Text, text_eq, text_eq_iff}
use sim_swarm.Prelude.Dict.{Dict, text_Eq, lookup, insert, keys}
use sim_swarm.Engine.Types.{Agent}
use sim_swarm.Engine.Value.{Observation}
use sim_swarm.Engine.Bridge.{Bridge}
use sim_swarm.Engine.Loop.State.{Environment, Participant, SimulationConfig, Call, Outside}
use sim_swarm.Engine.Loop.Step.{
  observe, observe_all, find_env_for_action, execute, remembering, perform, step_answered,
  step_agent, step_all,
}

pub keys-insert_known :
    {V : Type 0} (k : Text) (v old : V) (d : Dict Text V)
    → lookup k d ≡ some old
    → keys (insert k v d) ≡ keys d
unfolding lookup insert
keys-insert_known k v old [] h = cc
keys-insert_known k v old ((j, w) ∷ d) h = elim (Bool-cases (text_eq k j)) [
  | inl y ↦ ground (arith, y, text_eq_iff k j)
  | inr n ↦ ground (arith, n, h, keys-insert_known k v old d)
]

module _ {N S : Type 0} (env : Environment S) (out : Outside N) (config : SimulationConfig) where
  pub keys-observe :
      (agent : Agent) (names : List Text) (envs : Dict Text S)
      → keys (observe env out config agent names envs).1 ≡ keys envs
  unfolding observe
  keys-observe agent [] envs = refl
  keys-observe agent (name ∷ names) envs = elim (Option-cases (lookup name envs)) [
    | inl n ↦ rw (n, observe) (keys-observe agent names envs)
    | inr (s, l) ↦
        let s2 = (env.get_observations agent s).1 in
        rw (l, observe)
          (keys-observe agent names (insert name s2 envs) ∙ keys-insert_known name s2 s envs l)
  ]

  pub observe_all-keys :
      (agents : Dict Text (Participant N)) (bridge : Bridge) (envs : Dict Text S)
      → keys (observe_all env out config agents bridge envs).1 ≡ keys envs
  unfolding observe_all
  observe_all-keys [] bridge envs = refl
  observe_all-keys ((id, p) ∷ agents) bridge envs =
      observe_all-keys agents bridge (observe env out config p.agent p.environments envs).1
      ∙ keys-observe p.agent p.environments envs

  execute-keys :
      (agent : Agent) (target : Text) (call : Call) (envs : Dict Text S)
      → OnSome (λ r. keys r.2 ≡ keys envs) (execute env out config agent target call envs)
  unfolding execute
  execute-keys agent target call envs = elim (Option-cases (lookup target envs)) [
    | inl n ↦ rw (n, execute) refl
    | inr (s, l) ↦
        rw (l, execute)
          (elim (Option-cases (env.execute_action agent call.name call.args s)) [
            | inl n ↦ rw n tt
            | inr (r, e) ↦ rw e (keys-insert_known target r.1 s envs l)
          ])
  ]

  perform-keys :
      (round_num : ℕ) (calls : List Call) (p : Participant N) (envs : Dict Text S)
      → OnSome (λ s. keys s.2 ≡ keys envs) (perform env out config round_num p calls envs)
  unfolding perform
  perform-keys round_num [] p envs = refl
  perform-keys round_num (call ∷ calls) p envs =
      let target =
        find_env_for_action env out config call.name p.environments p.environments envs in
      let first = execute-keys p.agent target call envs in
      elim (Option-cases (execute env out config p.agent target call envs)) [
        | inl n ↦ rw (n, perform) tt
        | inr (done, d) ↦
            let same = subst (OnSome (λ r. keys r.2 ≡ keys envs)) d first in
            let p2 = remembering env out config round_num p call in
            let rest = perform-keys round_num calls p2 done.2 in
            rw (d, perform)
              (elim (Option-cases (perform env out config round_num p2 calls done.2)) [
                | inl n ↦ rw n tt
                | inr (s, f) ↦ rw f (subst (OnSome (λ x. keys x.2 ≡ keys done.2)) f rest ∙ same)
              ])
      ]

  step_agent-keys :
      (round_num : ℕ) (p : Participant N) (obs : List Observation) (envs : Dict Text S)
      → OnSome (λ s. keys s.2 ≡ keys envs) (step_agent env out config round_num p obs envs)
  unfolding step_agent step_answered
  step_agent-keys round_num p obs envs = elim (Option-cases (out.chat round_num p obs)) [
    | inl n ↦ rw (n, step_agent) tt
    | inr ([], c) ↦ rw (c, step_agent) refl
    | inr (call ∷ calls, c) ↦ rw (c, step_agent) (perform-keys round_num (call ∷ calls) p envs)
  ]

  pub step_all-keys :
      (round_num : ℕ) (agents : Dict Text (Participant N)) (seen : Dict Text (List Observation))
      (ids : List Text) (envs : Dict Text S)
      → OnSome (λ r. keys r.1 ≡ keys envs) (step_all env out config round_num ids agents seen envs)
  unfolding step_all
  step_all-keys round_num agents seen [] envs = refl
  step_all-keys round_num agents seen (id ∷ ids) envs = elim (Option-cases (lookup id agents)) [
    | inl n ↦ rw (n, step_all) (step_all-keys round_num agents seen ids envs)
    | inr (p, l) ↦
        let obs = get_or (lookup id seen) [] in
        let own = step_agent-keys round_num p obs envs in
        rw (l, step_all)
          (elim (Option-cases (step_agent env out config round_num p obs envs)) [
            | inl c ↦ rw c tt
            | inr (s, c) ↦
                let same = subst (OnSome (λ x. keys x.2 ≡ keys envs)) c own in
                let rest = step_all-keys round_num agents seen ids s.2 in
                rw c (elim (Option-cases (step_all env out config round_num ids agents seen s.2)) [
                  | inl n ↦ rw n tt
                  | inr (r, e) ↦ rw e (subst (OnSome (λ x. keys x.1 ≡ keys s.2)) e rest ∙ same)
                ])
          ])
  ]
