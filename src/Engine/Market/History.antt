-- ===== src/Engine/Market/History.antt =====
-- market.py: any sequence of actions of any agents.
use sim_swarm.Prelude.{
  ◌≡◌, ◌≢◌, refl, sym, ap, ◌∙◌, List, [], ◌∷◌, ◌++◌, if◌then◌else◌, arith, Bool-cases, inl, inr,
  append_assoc, append-nil,
}
use sim_swarm.Prelude.Text.{Text, text_eq, text_eq_iff}
use sim_swarm.Engine.Types.{Agent}
use sim_swarm.Engine.Number.{Number}
use sim_swarm.Engine.Market.{MarketEnvironment, Portfolio, Trade, MarketArgs, MarketReply}
use sim_swarm.Engine.Market.Actions.{execute_action}
use sim_swarm.Engine.Market.Ledger.{portfolio_of, trades_of, book, execute_action-IsBooked}

-- An action that an agent asks for.
pub record Order (N : Type 0) : Type 0 where
  pub agent : Agent
  pub action_type : Text
  pub args : MarketArgs N

-- The trades that the replies to an agent report, and those that the replies to all report.
abbrev pub own_trades : {N : Type 0} → Text → List (Text × MarketReply N) → List (Trade N)
own_trades id [] = []
own_trades id ((j, d) ∷ replies) =
    if text_eq id j then trades_of d ++ own_trades id replies else own_trades id replies

abbrev pub all_trades : {N : Type 0} → List (Text × MarketReply N) → List (Trade N)
all_trades [] = []
all_trades ((j, d) ∷ replies) = trades_of d ++ all_trades replies

module _ {N : Type 0} (num : Number N) where
  -- The replies to the orders, each with its agent, and the environment after them.
  unfoldable pub execute_all :
      List (Order N) → MarketEnvironment N → List (Text × MarketReply N) × MarketEnvironment N
  execute_all [] e = ([], e)
  execute_all (o ∷ orders) e =
      let (result, e2) = execute_action num o.agent o.action_type o.args e in
      let (replies, e3) = execute_all orders e2 in ((o.agent.id, result.payload) ∷ replies, e3)

  book-append :
      (s t : List (Trade N)) (p : Portfolio N) → book num (s ++ t) p ≡ book num t (book num s p)
  book-append [] t p = refl
  book-append (x ∷ s) t p = book-append s t _

  pub execute_all-settles :
      (orders : List (Order N)) (e : MarketEnvironment N) (id : Text)
      → let (replies, e2) = execute_all orders e in
        portfolio_of id e2 ≡ book num (own_trades id replies) (portfolio_of id e)
  unfolding execute_all
  execute_all-settles [] e id = refl
  execute_all-settles (o ∷ orders) e id =
      let x = execute_action num o.agent o.action_type o.args e in
      let b = execute_action-IsBooked num o.agent o.action_type o.args e in
      let replies = (execute_all orders x.1).0 in
      let rest = execute_all-settles orders x.1 id in
      elim (Bool-cases (text_eq id o.agent.id)) [
        | inl same ↦
            let own : portfolio_of id x.1 ≡ book num (trades_of x.0.payload) (portfolio_of id e) =
              rw ((text_eq_iff id o.agent.id).0 same) b.own in
            rw same (
              rest
              ∙ ap (book num (own_trades id replies)) own
              ∙ sym
                  (book-append (trades_of x.0.payload) (own_trades id replies) (portfolio_of id e)))
        | inr other ↦
            let ne : id ≢ o.agent.id = λ q. ground (arith, q, other, text_eq_iff id o.agent.id) in
            rw other (rest ∙ ap (book num (own_trades id replies)) (b.others id ne))
      ]

  execute_all-notes :
      (orders : List (Order N)) (e : MarketEnvironment N)
      → let (replies, e2) = execute_all orders e in e2.trades ≡ e.trades ++ all_trades replies
  unfolding execute_all
  execute_all-notes [] e = sym (append-nil e.trades)
  execute_all-notes (o ∷ orders) e =
      let x = execute_action num o.agent o.action_type o.args e in
      let replies = (execute_all orders x.1).0 in
      execute_all-notes orders x.1
      ∙ ap (λ t. t ++ all_trades replies)
          (execute_action-IsBooked num o.agent o.action_type o.args e).noted
      ∙ append_assoc e.trades (trades_of x.0.payload) (all_trades replies)

-- After any sequence of actions of any agents, refused ones included, the portfolio of each agent is
-- the one it had, or would have been registered with, changed by the trades that were reported to this
-- agent, in their order; and the record of trades has grown by all trades reported, in their order.
pub execute_all-balances :
    {N : Type 0} (num : Number N) (orders : List (Order N)) (e : MarketEnvironment N)
    → let (replies, e2) = execute_all num orders e in
      ((id : Text) → portfolio_of id e2 ≡ book num (own_trades id replies) (portfolio_of id e))
      × (e2.trades ≡ e.trades ++ all_trades replies)
execute_all-balances num orders e =
    (λ id. execute_all-settles num orders e id, execute_all-notes num orders e)
