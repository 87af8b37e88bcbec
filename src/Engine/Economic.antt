-- ===== src/Engine/Economic.antt =====
-- simswarm/environments/economic.py: the actors, the handlers and the aggregate metrics. The arguments
-- of a tool call have the types that its schema states, and each may be missing; `float` of an amount
-- is the amount. The values of scenario variables are of a type `V`.
pub mod Balance
pub mod Rounds
pub mod Changes
mod Tests
use sim_swarm.Prelude.{
  ℕ, ◌+◌, Bool, true, false, List, [], ◌∷◌, ◌++◌, Option, none, some, not, ltb, length, select,
  if◌then◌else◌, is_some, get_or, map,
}
use sim_swarm.Prelude.Int.{ℤ, pos, negsuc, ltb_ℤ, ◌+ℤ◌, ◌-ℤ◌}
use sim_swarm.Prelude.Text.{Text, codes, text_eq}
use sim_swarm.Prelude.Dict.{Dict, text_Eq, lookup, insert}
use sim_swarm.Engine.Types.{Agent, ActionResult, Event}
use sim_swarm.Engine.Number.{Number}

pub record EconomicActor (N : Type 0) : Type 0 where
  pub agent_id : Text
  pub role : Text
  pub balance : N
  pub workforce : ℤ
  pub price : N
  pub output : N

pub record EconomicConfig (N : Type 0) : Type 0 where
  pub labor_force : ℕ
  pub metric_change_threshold : N

-- An entry of `active_policies`
pub record Policy : Type 0 where
  pub name : Text
  pub description : Text
  pub enacted_by : Text
  pub round : ℕ

-- The `data` of a metric's event.
pub record MetricChange (N : Type 0) : Type 0 where
  pub metric : Text
  pub previous : N
  pub current : N
  pub delta : N

-- `EconomicEnvironment`
pub record Economy (N V : Type 0) : Type 0 where
  pub config : EconomicConfig N
  pub current_round : ℕ
  pub actors : Dict Text (EconomicActor N)
  pub active_policies : List Policy
  pub scenario_variables : Dict Text V
  pub metrics : Dict Text N
  pub pending_events : List (Event (MetricChange N))
  pub last_metrics : Dict Text N
  pub total_investment_cumulative : N

-- `action.args`
pub record EconomicArgs (N V : Type 0) : Type 0 where
  pub price : Option N
  pub count : Option ℤ
  pub amount : Option N
  pub target : Option Text
  pub policy_name : Option Text
  pub description : Option Text
  pub variable : Option Text
  pub value : Option V

-- `ActionResult.data`
pub data EconomicReply (N : Type 0) : Type 0 where
  error : Text → EconomicReply N
  cannot_fire : ℤ → ℤ → EconomicReply N
  priced : N → EconomicReply N
  employed : ℤ → EconomicReply N
  invested : N → N → EconomicReply N
  allocated : Text → N → EconomicReply N
  enacted : Text → EconomicReply N
  nothing : EconomicReply N

abbrev pub Step : Type 0 → Type 0 → Type 0
Step N V = ActionResult (EconomicReply N) × Economy N V

abbrev pub success : {N : Type 0} → EconomicReply N → ActionResult (EconomicReply N)
success d = record { success = true; payload = d }

abbrev pub failure : {N : Type 0} → EconomicReply N → ActionResult (EconomicReply N)
failure d = record { success = false; payload = d }

-- The actor of `register_agent` with its default role and balance.
abbrev pub newcomer : {N : Type 0} → Number N → Text → EconomicActor N
newcomer num agent_id = record {
  agent_id = agent_id;
  role = codes "producer";
  balance = num.ratio 0 1;
  workforce = pos 0;
  price = num.ratio 0 1;
  output = num.ratio 0 1;
}

-- The handlers take the actor that `register_agent` made sure of, and write it back.
abbrev pub put : {N V : Type 0} → EconomicActor N → Text → Economy N V → Economy N V
put actor key e = record e { actors = insert key actor e.actors }

-- The variable is set when the call names it and gives a value.
abbrev set_variable : {V : Type 0} → Option Text → Option V → Dict Text V → Dict Text V
set_variable none value variables = variables
set_variable (some variable) none variables = variables
set_variable (some variable) (some value) variables = insert variable value variables

module _ {N V : Type 0} (num : Number N) where
  unfoldable pub register_agent : Agent → Economy N V → Economy N V
  register_agent agent e =
      if is_some (lookup agent.id e.actors)
      then e
      else record e { actors = insert agent.id (newcomer num agent.id) e.actors }

  unfoldable pub handle_set_price :
      Text → EconomicActor N → EconomicArgs N V → Economy N V → Step N V
  handle_set_price key actor args e =
      let price = get_or args.price (num.ratio 0 1) in
      (success (priced price), put (record actor { price = price }) key e)

  unfoldable pub handle_hire : Text → EconomicActor N → EconomicArgs N V → Economy N V → Step N V
  handle_hire key actor args e =
      let workforce = actor.workforce +ℤ get_or args.count (pos 0) in
      (success (employed workforce), put (record actor { workforce = workforce }) key e)

  unfoldable pub handle_fire : Text → EconomicActor N → EconomicArgs N V → Economy N V → Step N V
  handle_fire key actor args e =
      let count = get_or args.count (pos 0) in
      if ltb_ℤ actor.workforce count then (failure (cannot_fire count actor.workforce), e) else (
        success (employed (actor.workforce -ℤ count)),
        put (record actor { workforce = actor.workforce -ℤ count }) key e,
      )

  unfoldable pub handle_invest : Text → EconomicActor N → EconomicArgs N V → Economy N V → Step N V
  handle_invest key actor args e =
      let amount = get_or args.amount (num.ratio 0 1) in
      if num.lt actor.balance amount then (failure (error (codes "Insufficient balance")), e) else (
        success (invested amount (num.minus actor.balance amount)),
        record (put
            (record actor {
              balance = num.minus actor.balance amount;
              output = num.plus actor.output amount;
            })
            key e) { total_investment_cumulative = num.plus e.total_investment_cumulative amount },
      )

  unfoldable pub handle_allocate : EconomicArgs N V → Economy N V → Step N V
  handle_allocate args e =
      (success (allocated (get_or args.target []) (get_or args.amount (num.ratio 0 1))), e)

  unfoldable pub handle_apply_policy : Agent → EconomicArgs N V → Economy N V → Step N V
  handle_apply_policy agent args e =
      let policy_name = get_or args.policy_name [] in
      (
        success (enacted policy_name),
        record e {
          active_policies =
              e.active_policies
              ++ (record {
                name = policy_name;
                description = get_or args.description [];
                enacted_by = agent.id;
                round = e.current_round;
              })
                ∷ [];
          scenario_variables = set_variable args.variable args.value e.scenario_variables;
        },
      )

  -- The table of handlers, for the actor of the agent.
  unfoldable pub dispatch :
      Agent → Text → EconomicArgs N V → EconomicActor N → Economy N V → Step N V
  dispatch agent action_type args actor e =
      if text_eq action_type (codes "set_price")
      then handle_set_price agent.id actor args e
      else if text_eq action_type (codes "hire")
      then handle_hire agent.id actor args e
      else if text_eq action_type (codes "fire")
      then handle_fire agent.id actor args e
      else if text_eq action_type (codes "invest")
      then handle_invest agent.id actor args e
      else if text_eq action_type (codes "allocate")
      then handle_allocate args e
      else if text_eq action_type (codes "apply_policy")
      then handle_apply_policy agent args e
      else if text_eq action_type (codes "do_nothing")
      then (success nothing, e)
      else (failure (error (codes "Unknown action: " ++ action_type)), e)

  -- `execute_action`
  unfoldable pub execute_action : Agent → Text → EconomicArgs N V → Economy N V → Step N V
  execute_action agent action_type args e =
      let registered = register_agent agent e in
      let actor = get_or (lookup agent.id registered.actors) (newcomer num agent.id) in
      dispatch agent action_type args actor registered
