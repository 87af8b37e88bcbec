-- ===== src/Engine/Loop/Snapshots.antt =====
-- simswarm/engine.py: the chat log and the snapshots of a whole run.
use sim_swarm.Prelude.{
  ℕ, zero, suc, ◌+◌, ◌≡◌, refl, sym, ap, subst, ◌∙◌, List, [], ◌∷◌, ◌++◌, All, Option-cases, inl,
  inr, OnSome, OnSome-map, append_assoc, append-nil, length, take, drop, take-append, drop-append,
}
use sim_swarm.Prelude.Text.{Text}
use sim_swarm.Prelude.Dict.{Dict, text_Eq, keys}
use sim_swarm.Engine.Number.{Number}
use sim_swarm.Engine.Value.{ActionRecord}
use sim_swarm.Engine.Loop.State.{Environment, SimulationConfig, Outside, Sim, create_agents}
use sim_swarm.Engine.Loop.Rounds.{play_round, play_rounds, run}
use sim_swarm.Engine.Loop.Agents.{create_agents-IsPlaced}
use sim_swarm.Engine.Loop.Digests.{IsBetween, Adds, play_round-Between}
use sim_swarm.Engine.Loop.Coverage.{Acts, Finishes, Logs, play_round-Logs}

-- The snapshots cut the log into the rounds from one on, in each of which every agent acts.
abbrev pub CoversFrom : ℕ → List Text → List ActionRecord → List (ℕ × ℕ) → Type 0
CoversFrom round_num ids log [] = log ≡ []
CoversFrom round_num ids log ((n, count) ∷ snapshots) =
    (n ≡ round_num)
    × (length (take count log) ≡ count)
    × All (λ id. Acts round_num id (take count log)) ids
    × CoversFrom (round_num + 1) ids (drop count log) snapshots

CoversFrom-first :
    (round_num : ℕ) (ids : List Text) (records log : List ActionRecord) (snapshots : List (ℕ × ℕ))
    → All (λ id. Acts round_num id records) ids
    → CoversFrom (round_num + 1) ids log snapshots
    → CoversFrom round_num ids (records ++ log) ((round_num, length records) ∷ snapshots)
CoversFrom-first round_num ids records log snapshots a k =
    let t = sym (take-append records log) in
    (
      refl,
      ap length (sym t),
      subst (λ r. All (λ id. Acts round_num id r) ids) t a,
      subst (λ r. CoversFrom (round_num + 1) ids r snapshots) (sym (drop-append records log)) k,
    )

module _ {N S : Type 0} (num : Number N) (env : Environment S) (out : Outside N)
    (config : SimulationConfig) (names : List Text) where
  -- What the rounds from one on add.
  pub record Covers (left round_num : ℕ) (before after : Sim N S) : Type 0 where
    pub records : List ActionRecord
    pub rounds : List (ℕ × ℕ)
    pub logged : after.chat_log ≡ before.chat_log ++ records
    pub counted : after.snapshots ≡ before.snapshots ++ rounds
    pub all_rounds : length rounds ≡ left
    pub covered : CoversFrom round_num (keys before.agents) records rounds

  Covers-first :
      (left round_num : ℕ) (before sim2 after : Sim N S)
      → Logs round_num before sim2
      → Covers left (round_num + 1) sim2 after
      → Covers (suc left) round_num before after
  Covers-first left round_num before sim2 after a k = record {
    records = a.records ++ k.records;
    rounds = (round_num, length a.records) ∷ k.rounds;
    logged =
        k.logged
        ∙ ap (λ s. s ++ k.records) a.logged
        ∙ append_assoc before.chat_log a.records k.records;
    counted =
        k.counted
        ∙ ap (λ s. s ++ k.rounds) a.counted
        ∙ append_assoc before.snapshots ((round_num, length a.records) ∷ []) k.rounds;
    all_rounds = ap suc k.all_rounds;
    covered =
        CoversFrom-first round_num (keys before.agents) a.records k.records k.rounds a.acts (
          subst (λ ids. CoversFrom (round_num + 1) ids k.records k.rounds) a.same_agents k.covered);
  }

  play_rounds-Covers :
      Finishes out
      → (left round_num : ℕ) (sim : Sim N S) → IsBetween num env out config names sim
      → OnSome (Covers left round_num sim) (play_rounds num env out config left round_num sim)
  unfolding play_rounds
  play_rounds-Covers finishes zero round_num sim h = record {
    records = [];
    rounds = [];
    logged = sym (append-nil sim.chat_log);
    counted = sym (append-nil sim.snapshots);
    all_rounds = refl;
    covered = refl;
  }
  play_rounds-Covers finishes (suc left) round_num sim h =
      let first = play_round-Logs num env out config names round_num sim finishes h in
      let next = play_round-Between num env out config names round_num sim h in
      elim (Option-cases (play_round num env out config round_num sim)) [
        | inl n ↦ rw (n, play_rounds) tt
        | inr (sim2, e) ↦
            let a : Logs round_num sim sim2 = subst (OnSome (Logs round_num sim)) e first in
            let b : Adds num env out config names round_num sim sim2 =
              subst (OnSome (Adds num env out config names round_num sim)) e next in
            rw (e, play_rounds)
              (OnSome-map (Covers left (round_num + 1) sim2) (Covers (suc left) round_num sim)
                (λ after k. Covers-first left round_num sim sim2 after a k)
                (play_rounds num env out config left (round_num + 1) sim2)
                (play_rounds-Covers finishes left (round_num + 1) sim2 b.between))
      ]

-- When the steps of a round finish for every agent, a run that returns has one snapshot for each round
-- of the configuration, numbered from 1; the counts of the snapshots cut the chat log into the rounds,
-- with no record left over; and each agent that was created has a record in each round.
pub run-covers :
    {N S : Type 0} (num : Number N) (env : Environment S) (out : Outside N)
    (config : SimulationConfig) (environments : Dict Text S)
    → Finishes out
    → let ids = keys (create_agents {N = N} config.entities (keys environments) []) in
      OnSome
        (λ sim.
          (length sim.snapshots ≡ config.rounds) × CoversFrom 1 ids sim.chat_log sim.snapshots)
        (run num env out config environments)
unfolding run
run-covers {N} num env out config environments finishes =
    let names = keys environments in
    let ids = keys (create_agents {N = N} config.entities names []) in
    OnSome-map (Covers num env out config names config.rounds 1 _) _
      (λ after k. (
        ap length k.counted ∙ k.all_rounds,
        subst (λ log. CoversFrom 1 ids log after.snapshots) (sym k.logged)
            (subst (CoversFrom 1 ids k.records) (sym k.counted) k.covered),
      ))
      _
      (play_rounds-Covers num env out config names finishes config.rounds 1 _ (record {
        quiet = refl;
        known = refl;
        placed = create_agents-IsPlaced names config.max_memory_rounds config.entities [] tt;
      }))
