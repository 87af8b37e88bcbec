-- ===== src/Engine/Market/Setup.antt =====
-- market.py: the markets that `__init__` makes of the configuration.
use sim_swarm.Prelude.{
  ℕ, suc, false, if◌then◌else◌, ◌+◌, ◌≤◌, ◌≡◌, ◌≢◌, refl, ap, subst, List, [], ◌∷◌, Option, none,
  some, get_or, length, All, arith, Bool-cases, inl, inr, map,
}
use sim_swarm.Prelude.Text.{Text, text_eq, text_eq_iff}
use sim_swarm.Prelude.Dict.{
  Dict, text_Eq, lookup, insert, keys, Distinct, Distinct-keys-insert, All-insert,
  length-insert_new, lookup-insert_self, lookup-insert_ne,
}
use sim_swarm.Engine.Number.{Number}
use sim_swarm.Engine.Market.{Market, MarketSpec, MarketConfig, MarketEnvironment}
use sim_swarm.Engine.Market.Slug.{unique_slug, slug_total_max}
use sim_swarm.Engine.Market.Names.{ten_to, digits_max, unique_slug-finds, IsFresh}
use sim_swarm.Engine.Market.Actions.{price_yes}

length-keys : {K V : Type 0} (d : Dict K V) → length (map (λ p. p.0) d) ≡ length d
length-keys [] = refl
length-keys (x ∷ d) = ap suc (length-keys d)

module _ {N : Type 0} (num : Number N) where
  -- `reserves_from_price`
  unfoldable pub reserves_from_price : N → N → N × N
  reserves_from_price price_yes liquidity =
      let pool = num.times liquidity (num.of_int 2) in
      (num.times pool (num.minus (num.of_int 1) price_yes), num.times pool price_yes)

  -- The market of a specification, under the id found for it.
  abbrev pub new_market : Text → MarketSpec N → N → Market N
  new_market slug spec liquidity =
      let (ry, rn) =
        reserves_from_price (get_or spec.initial_price_yes (num.ratio 1 2)) liquidity in
      record { id = slug; question = spec.question; reserve_yes = ry; reserve_no = rn }

  unfoldable pub add_market : Text → MarketSpec N → MarketEnvironment N → MarketEnvironment N
  add_market slug spec e =
      let market = new_market slug spec e.config.initial_liquidity in
      record e {
        markets = insert slug market e.markets;
        last_price = insert slug (price_yes num market) e.last_price;
      }

  -- `_pool` of the market of a specification, by which `price_yes` divides.
  abbrev pub pool_of : MarketSpec N → N → N
  pool_of spec liquidity =
      let (ry, rn) =
        reserves_from_price (get_or spec.initial_price_yes (num.ratio 1 2)) liquidity in
      num.plus ry rn

  -- The loop over the specifications; `none` where the first price is divided by zero.
  unfoldable pub create_markets :
      List (MarketSpec N) → MarketEnvironment N → Option (MarketEnvironment N)
  create_markets [] e = some e
  create_markets (spec ∷ specs) e = elim (unique_slug spec.question (keys e.markets)) [
    | none ↦ none
    | some slug ↦
        if num.is_zero (pool_of spec e.config.initial_liquidity)
        then none
        else create_markets specs (add_market slug spec e)
  ]

  -- `__init__`
  unfoldable pub init : MarketConfig N → Option (MarketEnvironment N)
  init config = create_markets config.markets (record {
    config = config;
    markets = [];
    portfolios = [];
    trades = [];
    events = [];
    comments = [];
    last_price = [];
    round = 1;
  })

  -- Some number of markets with distinct and short ids, each under its own id and with its price noted.
  pub record IsSetUp (size : ℕ) (e : MarketEnvironment N) : Type 0 where
    pub distinct : Distinct (keys e.markets)
    pub named : All (λ m. (m.1.id ≡ m.0) × (length m.0 ≤ slug_total_max)) e.markets
    pub counted : length e.markets ≡ size
    pub noted :
        (id : Text) (m : Market N)
        → lookup id e.markets ≡ some m
        → lookup id e.last_price ≡ some (price_yes num m)

  add_market-IsSetUp :
      (size : ℕ) (slug : Text) (spec : MarketSpec N) (e : MarketEnvironment N)
      → IsFresh slug (keys e.markets)
      → IsSetUp size e
      → IsSetUp (size + 1) (add_market slug spec e)
  unfolding add_market
  add_market-IsSetUp size slug spec e fresh h =
      let market = new_market slug spec e.config.initial_liquidity in
      record {
        distinct = Distinct-keys-insert slug market e.markets h.distinct;
        named = All-insert _ slug market e.markets (refl, fresh.short) h.named;
        counted = omega (arith, h.counted, length-insert_new slug market e.markets fresh.free);
        noted = λ id m l. elim (Bool-cases (text_eq id slug)) [
          | inl same ↦
              let t = (text_eq_iff id slug).0 same in
              ground (
                arith,
                t,
                l,
                lookup-insert_self slug market e.markets,
                lookup-insert_self slug (price_yes num market) e.last_price,
              )
          | inr other ↦
              let t : id ≢ slug = λ q. ground (arith, q, other, text_eq_iff id slug) in
              ground (
                arith,
                l,
                h.noted id m,
                lookup-insert_ne id slug market e.markets t,
                lookup-insert_ne id slug (price_yes num market) e.last_price t,
              )
        ];
      }

  create_markets-IsSetUp :
      (size : ℕ) (specs : List (MarketSpec N)) (e : MarketEnvironment N)
      → size + length specs + 3 ≤ ten_to digits_max
      → All (λ spec. num.is_zero (pool_of spec e.config.initial_liquidity) ≡ false) specs
      → IsSetUp size e
      → (e2 : MarketEnvironment N) × (create_markets specs e ≡ some e2)
        × IsSetUp (size + length specs) e2
  unfolding create_markets add_market
  create_markets-IsSetUp size [] e b z h = (e, refl, subst (λ n. IsSetUp n e) (omega arith) h)
  create_markets-IsSetUp size (spec ∷ specs) e b z h =
      let (slug, found, fresh) =
        unique_slug-finds spec.question (keys e.markets)
          (omega (arith, b, h.counted, length-keys e.markets)) in
      let (e2, made, h2) =
        create_markets-IsSetUp (size + 1) specs (add_market slug spec e) (omega (arith, b)) z.1
          (add_market-IsSetUp size slug spec e fresh h) in
      rw (found, z.0, create_markets) (e2, made, subst (λ n. IsSetUp n e2) (omega arith) h2)

-- For fewer than 10 ^ 44 - 3 specifications, of which none gives a market an empty pool, the environment
-- is made: it has one market for each specification, under distinct ids of at most 45 characters, and
-- notes the price of each.
pub init-sets_up :
    {N : Type 0} (num : Number N) (config : MarketConfig N)
    → length config.markets + 3 ≤ ten_to digits_max
    → All (λ spec. num.is_zero (pool_of num spec config.initial_liquidity) ≡ false) config.markets
    → (e : MarketEnvironment N) × (init num config ≡ some e) × IsSetUp num (length config.markets) e
unfolding init lookup
init-sets_up num config h pools =
    let few : 0 + length config.markets + 3 ≤ ten_to digits_max = omega (arith, h) in
    let size : 0 + length config.markets ≡ length config.markets = omega arith in
    let (e, made, h2) =
      create_markets-IsSetUp num 0 config.markets _ few pools (record {
        distinct = tt;
        named = tt;
        counted = refl;
        noted = λ id m l. ground (arith, l);
      }) in
    (e, made, subst (λ n. IsSetUp num n e) size h2)
