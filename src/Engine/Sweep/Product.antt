-- ===== src/Engine/Sweep/Product.antt =====
-- simswarm/sweep.py: which combinations a sweep has.
use sim_swarm.Prelude.{
  ℕ, ◌*◌, ◌≡◌, refl, sym, ap, subst, ◌∙◌, List, [], ◌∷◌, ◌++◌, map, length, length-append, inl, inr,
  arith, All, All-append, All-image, All-map, IsIn,
}
use sim_swarm.Prelude.Text.{Text}
use sim_swarm.Prelude.Dict.{Dict}
use sim_swarm.Engine.Value.{Value, Payload}
use sim_swarm.Engine.Loop.State.{SimulationConfig, update_all}
use sim_swarm.Engine.Sweep.{ScenarioSweep, with_each, combinations, generate_sweep_configs}

-- A key gives each variable, in their order, one of its values.
abbrev pub Picks : Dict Text (List Value) → Payload → Type 0
Picks [] [] = Unit
Picks [] (k ∷ key) = ⊥
Picks (v ∷ vary) [] = ⊥
Picks ((name, values) ∷ vary) ((n, v) ∷ key) = (n ≡ name) × IsIn v values × Picks vary key

-- How many combinations there are.
abbrev pub choices : Dict Text (List Value) → ℕ
choices [] = 1
choices ((name, values) ∷ vary) = length values * choices vary

IsIn-append_left : {A : Type 0} (a : A) (xs ys : List A) → IsIn a xs → IsIn a (xs ++ ys)
IsIn-append_left a [] ys i = absurd i
IsIn-append_left a (x ∷ xs) ys (inl e) = inl e
IsIn-append_left a (x ∷ xs) ys (inr i) = inr (IsIn-append_left a xs ys i)

IsIn-append_right : {A : Type 0} (a : A) (xs ys : List A) → IsIn a ys → IsIn a (xs ++ ys)
IsIn-append_right a [] ys i = i
IsIn-append_right a (x ∷ xs) ys i = inr (IsIn-append_right a xs ys i)

IsIn-map : {A B : Type 0} (f : A → B) (a : A) (xs : List A) → IsIn a xs → IsIn (f a) (map f xs)
IsIn-map f a [] i = absurd i
IsIn-map f a (x ∷ xs) (inl e) = inl (ap f e)
IsIn-map f a (x ∷ xs) (inr i) = inr (IsIn-map f a xs i)

length-map : {A B : Type 0} (f : A → B) (xs : List A) → length (map f xs) ≡ length xs
length-map f [] = refl
length-map f (x ∷ xs) = omega (arith, length-map f xs)

length-with_each :
    (name : Text) (values : List Value) (keys : List Payload)
    → length (with_each name values keys) ≡ length values * length keys
unfolding with_each
length-with_each name [] keys = omega arith
length-with_each name (v ∷ values) keys = omega (
  arith,
  length-append (map (λ key. (name, v) ∷ key) keys) (with_each name values keys),
  length-map (λ (key : Payload). (name, v) ∷ key) keys,
  length-with_each name values keys,
)

length-combinations : (vary : Dict Text (List Value)) → length (combinations vary) ≡ choices vary
unfolding combinations
length-combinations [] = refl
length-combinations ((name, values) ∷ vary) =
    length-with_each name values (combinations vary)
    ∙ ap (λ n. length values * n) (length-combinations vary)

with_each-IsIn :
    (name : Text) (v : Value) (values : List Value) (key : Payload) (keys : List Payload)
    → IsIn v values
    → IsIn key keys
    → IsIn ((name, v) ∷ key) (with_each name values keys)
unfolding with_each
with_each-IsIn name v [] key keys i j = absurd i
with_each-IsIn name v (x ∷ values) key keys (inl e) j =
    subst
      (λ y. IsIn ((name, v) ∷ key) (map (λ k. (name, y) ∷ k) keys ++ with_each name values keys)) e
      (IsIn-append_left ((name, v) ∷ key) (map (λ k. (name, v) ∷ k) keys)
        (with_each name values keys) (IsIn-map (λ k. (name, v) ∷ k) key keys j))
with_each-IsIn name v (x ∷ values) key keys (inr i) j =
    IsIn-append_right ((name, v) ∷ key) (map (λ k. (name, x) ∷ k) keys) (with_each name values keys)
      (with_each-IsIn name v values key keys i j)

combinations-IsIn :
    (vary : Dict Text (List Value)) (key : Payload) → Picks vary key → IsIn key (combinations vary)
unfolding combinations
combinations-IsIn [] [] p = inl refl
combinations-IsIn [] (k ∷ key) p = absurd p
combinations-IsIn (v ∷ vary) [] p = absurd p
combinations-IsIn ((name, values) ∷ vary) ((n, v) ∷ key) p =
    subst (λ m. IsIn ((m, v) ∷ key) (with_each name values (combinations vary))) (sym p.0)
      (with_each-IsIn name v values key (combinations vary) p.1 (combinations-IsIn vary key p.2))

with_each-All :
    (P : Payload → Type 0) (name : Text) (values : List Value) (keys : List Payload)
    → ((v : Value) → IsIn v values → All (λ key. P ((name, v) ∷ key)) keys)
    → All P (with_each name values keys)
unfolding with_each
with_each-All P name [] keys h = tt
with_each-All P name (v ∷ values) keys h =
    All-append P (map (λ key. (name, v) ∷ key) keys) (with_each name values keys)
      (All-image P (λ key. (name, v) ∷ key) keys (h v (inl refl)))
      (with_each-All P name values keys (λ w i. h w (inr i)))

combinations-Picks : (vary : Dict Text (List Value)) → All (Picks vary) (combinations vary)
unfolding combinations
combinations-Picks [] = (tt, tt)
combinations-Picks ((name, values) ∷ vary) =
    with_each-All (Picks ((name, values) ∷ vary)) name values (combinations vary) (λ v i.
      All-map (Picks vary) _ (λ key p. (refl, i, p)) (combinations vary) (combinations-Picks vary))

-- The configuration of a key.
abbrev pub configured : ScenarioSweep → Payload → Payload × SimulationConfig
configured sweep key =
    (key, record (sweep.base_config) { variables = update_all key sweep.base_config.variables })

generate_parts :
    (base : SimulationConfig) (vary : Dict Text (List Value))
    → let sweep : ScenarioSweep = record { base_config = base; vary = vary } in
      generate_sweep_configs sweep ≡ map (configured sweep) (combinations vary)
unfolding generate_sweep_configs combinations
generate_parts base [] = refl
generate_parts base (v ∷ vary) = refl

-- Every key of a sweep gives each variable, in their order, one of its values, and its configuration is
-- the base with the key written over the variables; every such choice is there; and there are as many
-- configurations as the product of the numbers of values.
pub generate_sweep_configs-product :
    (base : SimulationConfig) (vary : Dict Text (List Value))
    → let sweep : ScenarioSweep = record { base_config = base; vary = vary } in
      All (λ r. Picks vary r.0 × (r ≡ configured sweep r.0)) (generate_sweep_configs sweep)
      × ((key : Payload)
          → Picks vary key
          → IsIn (configured sweep key) (generate_sweep_configs sweep))
      × (length (generate_sweep_configs sweep) ≡ choices vary)
generate_sweep_configs-product base vary =
    let sweep : ScenarioSweep = record { base_config = base; vary = vary } in
    let all = generate_parts base vary in
    (
      subst (All (λ r. Picks vary r.0 × (r ≡ configured sweep r.0))) (sym all) (
          All-image (λ r. Picks vary r.0 × (r ≡ configured sweep r.0)) (configured sweep)
            (combinations vary)
            (All-map (Picks vary) _ (λ key p. (p, refl)) (combinations vary)
              (combinations-Picks vary))),
      (λ key p.
          subst (IsIn (configured sweep key)) (sym all)
            (IsIn-map (configured sweep) key (combinations vary) (combinations-IsIn vary key p))),
      ap length all ∙ length-map (configured sweep) (combinations vary) ∙ length-combinations vary,
    )
