-- ===== src/Engine/Economic/Changes.antt =====
-- economic.py: which changes of the metrics the end of a round tells of.
use sim_swarm.Prelude.{
  ℕ, ◌+◌, ◌<◌, ◌≡◌, refl, sym, subst, ◌∙◌, Bool, true, false, List, [], ◌∷◌, ◌++◌, select, map,
  append-nil, append_assoc, Bool-cases, inl, inr, All, IsIn, length, arith,
}
use sim_swarm.Prelude.Text.{Text, codes, text_eq, is_empty}
use sim_swarm.Prelude.Dict.{Dict, text_Eq, insert}
use sim_swarm.Engine.Types.{Event}
use sim_swarm.Engine.Number.{Number, IsOrdered}
use sim_swarm.Engine.Economic.{Economy, EconomicConfig, MetricChange}
use sim_swarm.Engine.Economic.Rounds.{
  as_metrics, of_integer, total_workforce, employment_rate, avg_price, compute_metrics,
  metric_change, is_change, emit, emit_metric_change_events, tick, publish_events, init,
}

emit-changes :
    {N : Type 0} (num : Number N) (round : ℕ) (threshold : N) (last metrics : Dict Text N)
    (pending : List (Event (MetricChange N)))
    → emit num round threshold last metrics pending
      ≡ pending
        ++ map
            (metric_change num (codes "economic") round last)
            (select (is_change num threshold last) metrics)
unfolding emit
emit-changes num round threshold last [] pending = sym (append-nil pending)
emit-changes num round threshold last (m ∷ metrics) pending =
    elim (Bool-cases (is_change num threshold last m)) [
      | inl y ↦
          let told = metric_change num (codes "economic") round last m in
          rw y (
            emit-changes num round threshold last metrics (pending ++ told ∷ [])
            ∙ append_assoc pending (told ∷ []) _)
      | inr n ↦ rw n (emit-changes num round threshold last metrics pending)
    ]

-- The metrics are the four, whatever their values.
pub record HasMetrics {N V : Type 0} (e : Economy N V) : Type 0 where
  pub rate : N
  pub price : N
  pub output : N
  pub investment : N
  pub listed : e.metrics ≡ as_metrics rate price output investment

tick-metrics :
    {N V : Type 0} (num : Number N) (sum : List N → N) (e : Economy N V)
    → HasMetrics e
    → (tick num sum e).metrics
      ≡ as_metrics
          (employment_rate num sum e)
          (avg_price num sum e)
          (sum (map (λ a. a.1.output) e.actors))
          e.total_investment_cumulative
unfolding tick emit_metric_change_events compute_metrics insert text_eq
tick-metrics num sum e h = rw h.listed refl

-- What the metrics say of the actors: the share of the labour force that works, cut at 1, or 0 with no
-- labour force; the mean of the prices above zero, or 0 where there is none; the sum of the outputs; and
-- what was invested so far.
pub record Measures {N V : Type 0} (num : Number N) (sum : List N → N) (e : Economy N V)
    (metrics : Dict Text N) : Type 0 where
  pub rate : N
  pub price : N
  pub listed :
      metrics
      ≡ as_metrics rate price (sum (map (λ a. a.1.output) e.actors)) e.total_investment_cumulative
  pub capped : num.lt (num.ratio 1 1) rate ≡ false
  pub no_force : e.config.labor_force ≡ 0 → rate ≡ num.ratio 0 1
  pub share :
      0 < e.config.labor_force
      → let quotient =
          num.over (of_integer num (total_workforce e.actors)) (num.of_int e.config.labor_force) in
        (num.lt (num.ratio 1 1) quotient ≡ false → rate ≡ quotient)
        × (num.lt (num.ratio 1 1) quotient ≡ true → rate ≡ num.ratio 1 1)
  pub no_price :
      All (λ p. num.lt (num.ratio 0 1) p ≡ false) (map (λ a. a.1.price) e.actors)
      → price ≡ num.ratio 0 1
  pub mean :
      (p : N)
      → IsIn p (map (λ a. a.1.price) e.actors)
      → num.lt (num.ratio 0 1) p ≡ true
      → let prices = select (num.lt (num.ratio 0 1)) (map (λ a. a.1.price) e.actors) in
        price ≡ num.over (sum prices) (num.of_int (length prices))

select-none :
    {A : Type 0} (p : A → Bool) (xs : List A) → All (λ x. p x ≡ false) xs → select p xs ≡ []
select-none p [] h = refl
select-none p (x ∷ xs) h = rw h.0 (select-none p xs h.1)

select-found :
    {A : Type 0} (p : A → Bool) (a : A) (xs : List A)
    → IsIn a xs
    → p a ≡ true
    → is_empty (select p xs) ≡ false
select-found p a [] i h = absurd i
select-found p a (x ∷ xs) (inl e) h = let y : p x ≡ true = subst (λ z. p z ≡ true) e h in rw y refl
select-found p a (x ∷ xs) (inr i) h = elim (Bool-cases (p x)) [
  | inl y ↦ rw y refl
  | inr n ↦ rw n (select-found p a xs i h)
]

employment_rate-capped :
    {N V : Type 0} (num : Number N) (sum : List N → N) (e : Economy N V)
    → IsOrdered num
    → num.lt (num.ratio 1 1) (employment_rate num sum e) ≡ false
employment_rate-capped num sum e ord =
    ground (arith, ord.irreflexive (num.ratio 1 1), ord.zero_to_one)

tick-Measures :
    {N V : Type 0} (num : Number N) (sum : List N → N) (e : Economy N V)
    → IsOrdered num
    → HasMetrics e
    → Measures num sum e (tick num sum e).metrics
tick-Measures num sum e ord h = record {
  rate = employment_rate num sum e;
  price = avg_price num sum e;
  listed = tick-metrics num sum e h;
  capped = employment_rate-capped num sum e ord;
  no_force = λ z. rw z refl;
  share = λ f. (λ n. ground (arith, f, n), λ y. ground (arith, f, y));
  no_price = λ a.
      let prices = map (λ x. x.1.price) e.actors in
      rw (select-none (num.lt (num.ratio 0 1)) prices a) refl;
  mean = λ p i y.
      let prices = map (λ x. x.1.price) e.actors in
      rw (select-found (num.lt (num.ratio 0 1)) p prices i y) refl;
}

tick-tells :
    {N V : Type 0} (num : Number N) (sum : List N → N) (e : Economy N V)
    → (publish_events (tick num sum e)).0
      ≡ e.pending_events
        ++ map (metric_change num (codes "economic") (e.current_round + 1) e.metrics) (
            select
              (is_change num e.config.metric_change_threshold e.metrics)
              (tick num sum e).metrics)
unfolding tick emit_metric_change_events compute_metrics publish_events
tick-tells num sum e =
    emit-changes num (e.current_round + 1) e.config.metric_change_threshold e.metrics _
      e.pending_events

-- On a state with the four metrics, and where 1 is neither below itself nor below 0, the end of a round
-- measures the four again, the employment rate never above 1, and tells, after the events that were
-- pending, of exactly those whose value has changed by the threshold or more, in their order, with both
-- values.
pub tick-tells_changes :
    {N V : Type 0} (num : Number N) (sum : List N → N) (e : Economy N V)
    → IsOrdered num
    → HasMetrics e
    → let threshold = e.config.metric_change_threshold in
      let now = (tick num sum e).metrics in
      Measures num sum e now
      × ((publish_events (tick num sum e)).0
          ≡ e.pending_events
            ++ map
                (metric_change num (codes "economic") (e.current_round + 1) e.metrics)
                (select (is_change num threshold e.metrics) now))
tick-tells_changes num sum e ord h = (tick-Measures num sum e ord h, tick-tells num sum e)

init-HasMetrics :
    {N V : Type 0} (num : Number N) (config : EconomicConfig N) (round : ℕ)
    → HasMetrics {V = V} (init num config round)
unfolding init
init-HasMetrics num config round = record {
  rate = num.ratio 0 1;
  price = num.ratio 0 1;
  output = num.ratio 0 1;
  investment = num.ratio 0 1;
  listed = refl;
}

pub tick-HasMetrics :
    {N V : Type 0} (num : Number N) (sum : List N → N) (e : Economy N V)
    → HasMetrics e
    → HasMetrics (tick num sum e)
tick-HasMetrics num sum e h = record {
  rate = employment_rate num sum e;
  price = avg_price num sum e;
  output = sum (map (λ a. a.1.output) e.actors);
  investment = e.total_investment_cumulative;
  listed = tick-metrics num sum e h;
}
