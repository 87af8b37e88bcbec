-- ===== src/Engine/Market/Ledger.antt =====
-- market.py: the portfolios against the trades that were reported.
use sim_swarm.Prelude.{
  ◌≡◌, ◌≢◌, refl, sym, ap, subst, ◌∙◌, false, List, [], ◌∷◌, ◌++◌, get_or, if◌then◌else◌, arith,
  Bool-cases, Option-cases, inl, inr, append-nil,
}
use sim_swarm.Prelude.Text.{Text, text_eq, text_eq_iff}
use sim_swarm.Prelude.Dict.{text_Eq, lookup, insert, lookup-insert_self, lookup-insert_ne}
use sim_swarm.Engine.Types.{Agent}
use sim_swarm.Engine.Number.{Number}
use sim_swarm.Engine.Market.{
  MarketEnvironment, Portfolio, Trade, MarketArgs, MarketReply, Step, traded, error,
  insufficient_shares, commented, listed, nothing,
}
use sim_swarm.Engine.Market.Actions.{
  register_agent, complete_buy, complete_sell, execute_action, newcomer, no_shares, held_in,
  set_held,
}
use sim_swarm.Engine.Market.Cases.{Endings, execute_action-ends, is_trade}

abbrev pub portfolio_of : {N : Type 0} → Text → MarketEnvironment N → Portfolio N
portfolio_of id e = get_or (lookup id e.portfolios) (newcomer e)

abbrev pub trades_of : {N : Type 0} → MarketReply N → List (Trade N)
trades_of (traded t) = t ∷ []
trades_of (error t) = []
trades_of (insufficient_shares h) = []
trades_of (commented m t) = []
trades_of (listed l) = []
trades_of nothing = []

pub newcomer-register :
    {N : Type 0} (num : Number N) (agent : Agent) (e : MarketEnvironment N)
    → newcomer (register_agent num agent e) ≡ newcomer e
unfolding register_agent
newcomer-register num agent e = ground arith

module _ {N : Type 0} (num : Number N) where
  -- What a trade does to a portfolio.
  abbrev pub booked : Trade N → Portfolio N → Portfolio N
  booked t p =
      let holding = get_or (lookup t.market_id p.shares) (no_shares num) in
      let held = held_in t.outcome holding in
      record {
        balance = if t.is_buy then num.minus p.balance t.money else num.plus p.balance t.money;
        shares =
            insert t.market_id
              (set_held t.outcome
                (if t.is_buy then num.plus held t.shares else num.minus held t.shares) holding)
              p.shares;
      }

  abbrev pub book : List (Trade N) → Portfolio N → Portfolio N
  book [] p = p
  book (t ∷ trades) p = book trades (booked t p)

  -- An action enters what it reports into the portfolio of its agent and into the trades, and
  -- nowhere else.
  pub record IsBooked (agent : Agent) (e : MarketEnvironment N) (x : Step N) : Type 0 where
    pub own : portfolio_of agent.id x.1 ≡ book (trades_of x.0.payload) (portfolio_of agent.id e)
    pub others : (id : Text) → id ≢ agent.id → portfolio_of id x.1 ≡ portfolio_of id e
    pub noted : x.1.trades ≡ e.trades ++ trades_of x.0.payload

  pub portfolio_of-register :
      (id : Text) (agent : Agent) (e : MarketEnvironment N)
      → portfolio_of id (register_agent num agent e) ≡ portfolio_of id e
  unfolding register_agent
  portfolio_of-register id agent e = elim (Option-cases (lookup agent.id e.portfolios)) [
    | inr (p, l) ↦ rw l refl
    | inl n ↦ rw n (elim (Bool-cases (text_eq id agent.id)) [
      | inl same ↦
          let t = (text_eq_iff id agent.id).0 same in
          rw (t, n)
            (ap (λ o. get_or o (newcomer e))
              (lookup-insert_self agent.id (newcomer e) e.portfolios))
      | inr other ↦
          let ne : id ≢ agent.id = λ q. ground (arith, q, other, text_eq_iff id agent.id) in
          ap (λ o. get_or o (newcomer e))
            (lookup-insert_ne id agent.id (newcomer e) e.portfolios ne)
    ])
  ]

  pub quiet_trades : (d : MarketReply N) → is_trade d ≡ false → trades_of d ≡ []
  quiet_trades (traded t) h = cc
  quiet_trades (error t) h = refl
  quiet_trades (insufficient_shares x) h = refl
  quiet_trades (commented m t) h = refl
  quiet_trades (listed l) h = refl
  quiet_trades nothing h = refl

  registered_ends :
      (agent : Agent) (e : MarketEnvironment N)
      → Endings num
          (IsBooked agent (register_agent num agent e))
          agent
          (portfolio_of agent.id (register_agent num agent e))
          (register_agent num agent e)
  unfolding complete_buy complete_sell
  registered_ends agent e =
      let r = register_agent num agent e in
      let write = λ (p : Portfolio N) (id : Text) (ne : id ≢ agent.id).
        ap (λ o. get_or o (newcomer r)) (lookup-insert_ne id agent.id p r.portfolios ne) in
      let read = λ (p : Portfolio N).
        ap (λ o. get_or o (newcomer r)) (lookup-insert_self agent.id p r.portfolios) in
      record {
        quiet = λ ok d h. record {
          own = rw (quiet_trades d h) refl;
          others = λ id ne. refl;
          noted = rw (quiet_trades d h) (sym (append-nil r.trades));
        };
        comments = λ d c h. record {
          own = rw (quiet_trades d h) refl;
          others = λ id ne. refl;
          noted = rw (quiet_trades d h) (sym (append-nil r.trades));
        };
        buys = λ id outcome amount market m positive covered. record {
          own = read _;
          others = write _;
          noted = refl;
        };
        sells = λ id outcome shares market m positive covered. record {
          own = read _;
          others = write _;
          noted = refl;
        };
      }

  trades-register :
      (agent : Agent) (e : MarketEnvironment N) → (register_agent num agent e).trades ≡ e.trades
  unfolding register_agent
  trades-register agent e = ground arith

  pub execute_action-IsBooked :
      (agent : Agent) (action_type : Text) (args : MarketArgs N) (e : MarketEnvironment N)
      → IsBooked agent e (execute_action num agent action_type args e)
  execute_action-IsBooked agent action_type args e =
      let r = register_agent num agent e in
      let x = execute_action num agent action_type args e in
      let b = execute_action-ends num (IsBooked agent r) agent action_type args e (
        subst
          (λ n. Endings num (IsBooked agent r) agent (get_or (lookup agent.id r.portfolios) n) r)
          (newcomer-register num agent e) (registered_ends agent e)) in
      record {
        own = b.own ∙ ap (book (trades_of x.0.payload)) (portfolio_of-register agent.id agent e);
        others = λ id ne. b.others id ne ∙ portfolio_of-register id agent e;
        noted = b.noted ∙ ap (λ t. t ++ trades_of x.0.payload) (trades-register agent e);
      }
