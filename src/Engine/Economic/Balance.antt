-- ===== src/Engine/Economic/Balance.antt =====
-- simswarm/environments/economic.py: no action overdraws a balance or leaves a negative workforce.
use sim_swarm.Prelude.{
  ◌≡◌, refl, false, All, arith, if-split, if-both, Option-cases, Bool-cases, inl, inr, get_or,
  is_some, ◌++◌,
}
use sim_swarm.Prelude.Int.{ℤ, pos, ltb_ℤ, ◌+ℤ◌, ◌-ℤ◌, +ℤ_parts, -ℤ_parts}
use sim_swarm.Prelude.Text.{Text, codes}
use sim_swarm.Prelude.Dict.{text_Eq, lookup, All-insert, All-lookup}
use sim_swarm.Engine.Types.{Agent}
use sim_swarm.Engine.Number.{Number, IsOrdered}
use sim_swarm.Engine.Economic.{
  EconomicActor, Economy, EconomicArgs, Step, success, failure, error, nothing, newcomer, put,
  register_agent, handle_set_price, handle_hire, handle_fire, handle_invest, handle_allocate,
  handle_apply_policy, dispatch, execute_action,
}

sum_not_negative :
    (a b : ℤ) → ltb_ℤ a (pos 0) ≡ false → ltb_ℤ b (pos 0) ≡ false → ltb_ℤ (a +ℤ b) (pos 0) ≡ false
sum_not_negative a b h k = ground (arith, h, k, +ℤ_parts a b)

difference_not_negative : (a b : ℤ) → ltb_ℤ a b ≡ false → ltb_ℤ (a -ℤ b) (pos 0) ≡ false
difference_not_negative a b h = ground (arith, h, -ℤ_parts a b)

-- Neither money nor workers are owed.
pub record IsSolvent {N : Type 0} (num : Number N) (actor : EconomicActor N) : Type 0 where
  pub balance : num.lt actor.balance (num.ratio 0 1) ≡ false
  pub workforce : ltb_ℤ actor.workforce (pos 0) ≡ false

abbrev pub Solvent : {N V : Type 0} → Number N → Economy N V → Type 0
Solvent num e = All (λ x. IsSolvent num x.1) e.actors

newcomer-IsSolvent :
    {N : Type 0} (num : Number N) → IsOrdered num → (key : Text) → IsSolvent num (newcomer num key)
newcomer-IsSolvent num ord key = record {
  balance = ord.irreflexive (num.ratio 0 1);
  workforce = refl;
}

module _ {N V : Type 0} (num : Number N) (ord : IsOrdered num) where
  put-Solvent :
      (actor : EconomicActor N) (key : Text) (e : Economy N V)
      → IsSolvent num actor
      → Solvent num e
      → Solvent num (put actor key e)
  put-Solvent actor key e a h = All-insert (λ x. IsSolvent num x.1) key actor e.actors a h

  register-Solvent :
      (agent : Agent) (e : Economy N V) → Solvent num e → Solvent num (register_agent num agent e)
  unfolding register_agent
  register-Solvent agent e h =
      if-split (Solvent num) (is_some (lookup agent.id e.actors)) e _ (λ y. h)
        (λ n.
          put-Solvent (newcomer num agent.id) agent.id e (newcomer-IsSolvent num ord agent.id) h)

  module _ (agent : Agent) (args : EconomicArgs N V) (actor : EconomicActor N) (e : Economy N V)
      (a : IsSolvent num actor) (h : Solvent num e) where
    set_price-Solvent : Solvent num (handle_set_price num agent.id actor args e).1
    unfolding handle_set_price
    set_price-Solvent =
        put-Solvent _ agent.id e (record { balance = a.balance; workforce = a.workforce }) h

    hire-Solvent :
        ltb_ℤ (get_or args.count (pos 0)) (pos 0) ≡ false
        → Solvent num (handle_hire num agent.id actor args e).1
    unfolding handle_hire
    hire-Solvent c =
        put-Solvent _ agent.id e
          (record {
            balance = a.balance;
            workforce = sum_not_negative actor.workforce (get_or args.count (pos 0)) a.workforce c;
          })
          h

    fire-Solvent : Solvent num (handle_fire num agent.id actor args e).1
    unfolding handle_fire
    fire-Solvent = elim (Bool-cases (ltb_ℤ actor.workforce (get_or args.count (pos 0)))) [
      | inl y ↦ rw y h
      | inr n ↦ rw n (
          put-Solvent _ agent.id e
            (record {
              balance = a.balance;
              workforce = difference_not_negative actor.workforce (get_or args.count (pos 0)) n;
            })
            h)
    ]

    invest-Solvent : Solvent num (handle_invest num agent.id actor args e).1
    unfolding handle_invest
    invest-Solvent = elim (Bool-cases (num.lt actor.balance (get_or args.amount (num.ratio 0 1)))) [
      | inl y ↦ rw y h
      | inr n ↦ rw n (
          put-Solvent _ agent.id e
            (record {
              balance = ord.minus_to_zero actor.balance (get_or args.amount (num.ratio 0 1)) n;
              workforce = a.workforce;
            })
            h)
    ]

  -- What holds of every handler's outcome holds of every call's.
  dispatch-cases :
      (P : Step N V → Type 0) (agent : Agent) (action_type : Text) (args : EconomicArgs N V)
      (actor : EconomicActor N) (e : Economy N V)
      → P (handle_set_price num agent.id actor args e)
      → P (handle_hire num agent.id actor args e)
      → P (handle_fire num agent.id actor args e)
      → P (handle_invest num agent.id actor args e)
      → P (handle_allocate num args e)
      → P (handle_apply_policy num agent args e)
      → P (success nothing, e)
      → P (failure (error (codes "Unknown action: " ++ action_type)), e)
      → P (dispatch num agent action_type args actor e)
  unfolding dispatch
  dispatch-cases P agent action_type args actor e a b c d f g i j = if-both P _ _ _ a (
      if-both P _ _ _ b (
        if-both P _ _ _ c
          (if-both P _ _ _ d (if-both P _ _ _ f (if-both P _ _ _ g (if-both P _ _ _ i j))))))

  allocate-Solvent :
      (args : EconomicArgs N V) (e : Economy N V)
      → Solvent num e
      → Solvent num (handle_allocate num args e).1
  unfolding handle_allocate
  allocate-Solvent args e h = h

  policy-Solvent :
      (agent : Agent) (args : EconomicArgs N V) (e : Economy N V)
      → Solvent num e
      → Solvent num (handle_apply_policy num agent args e).1
  unfolding handle_apply_policy
  policy-Solvent agent args e h = h

  found-IsSolvent :
      (key : Text) (e : Economy N V)
      → Solvent num e
      → IsSolvent num (get_or (lookup key e.actors) (newcomer num key))
  found-IsSolvent key e h = elim (Option-cases (lookup key e.actors)) [
    | inl n ↦ rw n (newcomer-IsSolvent num ord key)
    | inr (actor, y) ↦ rw y (All-lookup (λ x. IsSolvent num x.1) key actor e.actors y h)
  ]

  -- If no actor has a negative balance or workforce, then none has one after any action whose count
  -- of workers is not negative; an amount may be negative.
  pub execute_action-Solvent :
      (agent : Agent) (action_type : Text) (args : EconomicArgs N V) (e : Economy N V)
      → ltb_ℤ (get_or args.count (pos 0)) (pos 0) ≡ false
      → Solvent num e
      → Solvent num (execute_action num agent action_type args e).1
  unfolding execute_action
  execute_action-Solvent agent action_type args e c h =
      let r = register_agent num agent e in
      let k : Solvent num r = register-Solvent agent e h in
      let actor = get_or (lookup agent.id r.actors) (newcomer num agent.id) in
      let a : IsSolvent num actor = found-IsSolvent agent.id r k in
      dispatch-cases (λ s. Solvent num s.1) agent action_type args actor r
        (set_price-Solvent agent args actor r a k) (hire-Solvent agent args actor r a k c)
        (fire-Solvent agent args actor r a k) (invest-Solvent agent args actor r a k)
        (allocate-Solvent args r k) (policy-Solvent agent args r k) k k
