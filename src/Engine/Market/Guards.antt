-- ===== src/Engine/Market/Guards.antt =====
-- market.py: what the tests of a trade guarantee, and what a refusal leaves.
use sim_swarm.Prelude.{
  ◌≡◌, refl, sym, ap, subst, ◌∙◌, false, [], get_or, All, Bool-cases, inl, inr, then_of, else_of,
  if◌then◌else◌,
}
use sim_swarm.Prelude.Text.{Text}
use sim_swarm.Prelude.Dict.{text_Eq, lookup, lookup-insert_self}
use sim_swarm.Engine.Types.{Agent}
use sim_swarm.Engine.Number.{Number, IsOrdered}
use sim_swarm.Engine.Market.{
  MarketEnvironment, Portfolio, Outcome, yes, no, Holding, Trade, MarketArgs, MarketReply, traded,
  error, insufficient_shares, commented, listed, nothing,
}
use sim_swarm.Engine.Market.Actions.{
  register_agent, complete_buy, complete_sell, execute_action, newcomer, no_shares, held_in,
  set_held,
}
use sim_swarm.Engine.Market.Cases.{Endings, execute_action-ends}
use sim_swarm.Engine.Market.Ledger.{
  portfolio_of, trades_of, booked, book, execute_action-IsBooked, quiet_trades, newcomer-register,
  portfolio_of-register,
}

module _ {N : Type 0} (num : Number N) where
  refused_ends :
      (agent : Agent) (p : Portfolio N) (e : MarketEnvironment N)
      → Endings num (λ x. x.0.success ≡ false → (x.1 ≡ e) × (trades_of x.0.payload ≡ [])) agent p e
  unfolding complete_buy complete_sell
  refused_ends agent p e = record {
    quiet = λ ok d h f. (refl, quiet_trades num d h);
    comments = λ d c h f. cc;
    buys = λ id outcome amount market m positive covered f. cc;
    sells = λ id outcome shares market m positive covered f. cc;
  }

  abbrev pub shares_of : Trade N → Portfolio N → N
  shares_of t p = held_in t.outcome (get_or (lookup t.market_id p.shares) (no_shares num))

  abbrev IsCoveredBuy : Portfolio N → Portfolio N → Trade N → Type 0
  IsCoveredBuy before after t =
      (num.le t.money (num.ratio 0 1) ≡ false)
      × (num.lt before.balance t.money ≡ false)
      × (num.lt after.balance (num.ratio 0 1) ≡ false)

  abbrev IsCoveredSale : Portfolio N → Portfolio N → Trade N → Type 0
  IsCoveredSale before after t =
      (num.le t.shares (num.ratio 0 1) ≡ false)
      × (num.lt (shares_of t before) t.shares ≡ false)
      × (num.lt (shares_of t after) (num.ratio 0 1) ≡ false)

  -- A purchase is of a positive amount that the balance covers, and a sale is of a positive number of
  -- shares that the holding covers; neither is below zero afterwards.
  abbrev pub IsCovered : Portfolio N → Portfolio N → Trade N → Type 0
  IsCovered before after t =
      if t.is_buy then IsCoveredBuy before after t else IsCoveredSale before after t

  -- What the tests of a trade found.
  abbrev IsTested : Portfolio N → Trade N → Type 0
  IsTested p t =
      if t.is_buy
      then (num.le t.money (num.ratio 0 1) ≡ false) × (num.lt p.balance t.money ≡ false)
      else (num.le t.shares (num.ratio 0 1) ≡ false) × (num.lt (shares_of t p) t.shares ≡ false)

  IsTested-ends :
      (agent : Agent) (p : Portfolio N) (e : MarketEnvironment N)
      → Endings num (λ x. All (IsTested p) (trades_of x.0.payload)) agent p e
  unfolding complete_buy complete_sell
  IsTested-ends agent p e = record {
    quiet = λ ok d h. rw (quiet_trades num d h) tt;
    comments = λ d c h. rw (quiet_trades num d h) tt;
    buys = λ id outcome amount market m positive covered. ((positive, covered), tt);
    sells = λ id outcome shares market m positive covered. ((positive, covered), tt);
  }

  held_in-set_held : (o : Outcome) (x : N) (h : Holding N) → held_in o (set_held o x h) ≡ x
  held_in-set_held yes x h = refl
  held_in-set_held no x h = refl

  shares_of-booked :
      (t : Trade N) (p : Portfolio N)
      → shares_of t (booked num t p) ≡ (
          if t.is_buy
          then num.plus (shares_of t p) t.shares
          else num.minus (shares_of t p) t.shares)
  shares_of-booked t p =
      let holding = get_or (lookup t.market_id p.shares) (no_shares num) in
      let after =
        if t.is_buy
        then num.plus (held_in t.outcome holding) t.shares
        else num.minus (held_in t.outcome holding) t.shares in
      ap (λ o. held_in t.outcome (get_or o (no_shares num)))
        (lookup-insert_self t.market_id (set_held t.outcome after holding) p.shares)
      ∙ held_in-set_held t.outcome after holding

  IsCovered-booked :
      IsOrdered num
      → (p : Portfolio N) (t : Trade N) → IsTested p t
      → IsCovered p (booked num t p) t
  IsCovered-booked ordered p t h = elim (Bool-cases t.is_buy) [
    | inl b ↦
        let (positive, covered) = then_of _ _ t.is_buy b h in
        rw b (positive, covered, ordered.minus_to_zero p.balance t.money covered)
    | inr s ↦
        let (positive, covered) = else_of _ _ t.is_buy s h in
        let left : shares_of t (booked num t p) ≡ num.minus (shares_of t p) t.shares =
          shares_of-booked t p ∙ rw s refl in
        subst
          (λ c. if c then IsCoveredBuy p (booked num t p) t else IsCoveredSale p (booked num t p) t)
          (sym s)
          (
            positive,
            covered,
            subst (λ x. num.lt x (num.ratio 0 1) ≡ false) (sym left)
                (ordered.minus_to_zero (shares_of t p) t.shares covered),
          )
  ]

  IsCovered-book :
      IsOrdered num
      → (p : Portfolio N) (d : MarketReply N) → All (IsTested p) (trades_of d)
      → All (IsCovered p (book num (trades_of d) p)) (trades_of d)
  IsCovered-book ordered p (traded t) h = (IsCovered-booked ordered p t h.0, tt)
  IsCovered-book ordered p (error t) h = tt
  IsCovered-book ordered p (insufficient_shares x) h = tt
  IsCovered-book ordered p (commented m t) h = tt
  IsCovered-book ordered p (listed l) h = tt
  IsCovered-book ordered p nothing h = tt

-- Each trade that an action reports passed its tests against the portfolio that the agent had: a
-- purchase is of a positive amount that the balance covers and leaves a balance that is not negative,
-- a sale is of a positive number of shares that the holding covers and leaves a holding that is not.
pub execute_action-IsCovered :
    {N : Type 0} (num : Number N) (agent : Agent) (action_type : Text) (args : MarketArgs N)
    (e : MarketEnvironment N)
    → IsOrdered num
    → let x = execute_action num agent action_type args e in
      All
        (IsCovered num (portfolio_of agent.id e) (portfolio_of agent.id x.1))
        (trades_of x.0.payload)
execute_action-IsCovered num agent action_type args e ordered =
    let r = register_agent num agent e in
    let p = portfolio_of agent.id e in
    let x = execute_action num agent action_type args e in
    let own = (execute_action-IsBooked num agent action_type args e).own in
    let found : get_or (lookup agent.id r.portfolios) (newcomer e) ≡ p =
      ap (get_or (lookup agent.id r.portfolios)) (sym (newcomer-register num agent e))
      ∙ portfolio_of-register num agent.id agent e in
    let tested =
      execute_action-ends num (λ y. All (IsTested num p) (trades_of y.0.payload)) agent action_type
        args e
        (subst (λ q. Endings num (λ y. All (IsTested num p) (trades_of y.0.payload)) agent q r)
          (sym found) (IsTested-ends num agent p r)) in
    subst (λ q. All (IsCovered num p q) (trades_of x.0.payload)) (sym own)
      (IsCovered-book num ordered p x.0.payload tested)

-- An action that is refused changes nothing but that its agent is registered, and reports no trade.
pub execute_action-refuses :
    {N : Type 0} (num : Number N) (agent : Agent) (action_type : Text) (args : MarketArgs N)
    (e : MarketEnvironment N)
    → let x = execute_action num agent action_type args e in
      x.0.success ≡ false → (x.1 ≡ register_agent num agent e) × (trades_of x.0.payload ≡ [])
execute_action-refuses num agent action_type args e =
    let r = register_agent num agent e in
    execute_action-ends num (λ x. x.0.success ≡ false → (x.1 ≡ r) × (trades_of x.0.payload ≡ []))
      agent action_type args e
      (refused_ends num agent (get_or (lookup agent.id r.portfolios) (newcomer e)) r)
