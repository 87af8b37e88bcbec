-- ===== src/Prelude/Dict.antt =====
-- A Python dictionary in insertion order, with a Boolean equality on its keys. A set is a dictionary
-- without values: the list of its members, in the order in which they were added.
use Prim.Native.Nat.{ℕ, ◌+◌}
use mathlib.Core.Path.{◌≡◌, refl, sym, subst, subst₂}
use mathlib.Core.Logic.{◌↔◌, ◌≢◌, inl, inr}
use mathlib.Core.Bool.{Bool, true, false, ◌||◌}
use mathlib.Core.Option.{Option, none, some}
use mathlib.Core.List.{List, [], ◌∷◌, ◌++◌, map}
use native.Mathlib.Omega.{arith}
use sim_swarm.Prelude.Lists.{All, All-map, length, length-append}
use sim_swarm.Prelude.Tests.{is_some, Bool-cases, if◌then◌else◌, ◌==◌, ==_iff}
use sim_swarm.Prelude.Text.{Text, text_eq, text_eq_iff}

-- Equality of keys.
pub record Eq {ℓ} (A : Type ℓ) : Type ℓ where
  pub beq : A → A → Bool
  pub beq_iff : (a b : A) → (beq a b ≡ true) ↔ (a ≡ b)

infix 50 ◌=?◌
abbrev pub ◌=?◌ {ℓ} : {A : Type ℓ} ⦃e : Eq A⦄ → A → A → Bool
◌=?◌ ⦃e⦄ = e.beq

instance abbrev pub nat_eq : Eq ℕ
nat_eq = record { beq = ◌==◌; beq_iff = ==_iff }

instance abbrev pub text_Eq : Eq Text
text_Eq = record { beq = text_eq; beq_iff = text_eq_iff }

abbrev pub Dict {ℓ κ} : Type ℓ → Type κ → Type (ℓ ⊔ κ)
Dict K V = List (K × V)

module _ {ℓ κ} {K : Type ℓ} {V : Type κ} ⦃e : Eq K⦄ where
  -- `d.get(k)`
  unfoldable pub lookup : K → Dict K V → Option V
  lookup k [] = none
  lookup k ((j, v) ∷ d) = if k =? j then some v else lookup k d

  -- `d[k] = v`: a key that is there keeps its place.
  unfoldable pub insert : K → V → Dict K V → Dict K V
  insert k v [] = (k, v) ∷ []
  insert k v ((j, w) ∷ d) = if k =? j then (j, v) ∷ d else (j, w) ∷ insert k v d

  pub lookup-insert_self : (k : K) (v : V) (d : Dict K V) → lookup k (insert k v d) ≡ some v
  unfolding lookup insert
  lookup-insert_self k v [] = ground (arith, e.beq_iff k k)
  lookup-insert_self k v ((j, w) ∷ d) = ground (arith, lookup-insert_self k v d)

  pub lookup-insert_ne :
      (j k : K) (v : V) (d : Dict K V) → j ≢ k → lookup j (insert k v d) ≡ lookup j d
  unfolding lookup insert
  lookup-insert_ne j k v [] h = ground (arith, e.beq_iff j k)
  lookup-insert_ne j k v ((i, w) ∷ d) h =
      ground (arith, e.beq_iff j i, e.beq_iff k i, lookup-insert_ne j k v d h)

module _ {ℓ} {K : Type ℓ} ⦃e : Eq K⦄ where
  -- `k in s`
  unfoldable pub member : K → List K → Bool
  member k [] = false
  member k (j ∷ s) = k =? j || member k s

  -- `s.add(k)`
  unfoldable pub add : K → List K → List K
  unfolding member
  add k s = if member k s then s else s ++ k ∷ []

  pub member-append : (k : K) (s t : List K) → member k (s ++ t) ≡ (member k s || member k t)
  unfolding member
  member-append k [] t = refl
  member-append k (j ∷ s) t = ground (arith, member-append k s t)

  pub member-add_self : (k : K) (s : List K) → member k (add k s) ≡ true
  unfolding add
  member-add_self k s = ground (arith, member-append k s (k ∷ []), e.beq_iff k k)

module _ {ℓ κ} {K : Type ℓ} {V : Type κ} ⦃e : Eq K⦄ where
  -- A property of all entries, through a write and at a key that is found.
  pub All-insert {μ} :
      (P : K × V → Type μ) (k : K) (v : V) (d : Dict K V)
      → P (k, v)
      → All P d
      → All P (insert k v d)
  unfolding insert
  All-insert P k v [] p h = (p, tt)
  All-insert P k v ((j, w) ∷ d) p h = elim (Bool-cases (k =? j)) [
    | inl hit ↦ rw hit (subst (λ i. P (i, v)) ((e.beq_iff k j).0 hit) p, h.1)
    | inr miss ↦ rw miss (h.0, All-insert P k v d p h.1)
  ]

  pub All-lookup {μ} :
      (P : K × V → Type μ) (k : K) (v : V) (d : Dict K V) → lookup k d ≡ some v → All P d → P (k, v)
  unfolding lookup
  All-lookup P k v [] l h = cc
  All-lookup P k v ((j, w) ∷ d) l h = elim (Bool-cases (k =? j)) [
    | inl hit ↦ subst₂ (λ i x. P (i, x)) (sym ((e.beq_iff k j).0 hit)) (ground (arith, hit)) h.0
    | inr miss ↦ All-lookup P k v d (ground (arith, miss)) h.1
  ]

  pub is_some-lookup-insert :
      (j k : K) (v : V) (d : Dict K V)
      → is_some (lookup j d) ≡ true
      → is_some (lookup j (insert k v d)) ≡ true
  unfolding lookup insert
  is_some-lookup-insert j k v [] h = cc
  is_some-lookup-insert j k v ((i, w) ∷ d) h = ground (arith, is_some-lookup-insert j k v d)

module _ {ℓ} {K : Type ℓ} ⦃e : Eq K⦄ where
  -- The members of a set are listed once.
  abbrev pub Distinct : List K → Type 0
  Distinct [] = Unit
  Distinct (k ∷ s) = (member k s ≡ false) × Distinct s

  pub Distinct-snoc :
      (k : K) (s : List K) → member k s ≡ false → Distinct s → Distinct (s ++ k ∷ [])
  unfolding member
  Distinct-snoc k [] n h = (refl, tt)
  Distinct-snoc k (j ∷ s) n h =
      ground (arith, member-append j s (k ∷ []), e.beq_iff k j, e.beq_iff j k, Distinct-snoc k s)

  pub Distinct-add : (k : K) (s : List K) → Distinct s → Distinct (add k s)
  unfolding add
  Distinct-add k s h = elim (Bool-cases (member k s)) [
    | inl old ↦ rw old h
    | inr new ↦ rw new (Distinct-snoc k s new h)
  ]

  pub length-add_new : (k : K) (s : List K) → member k s ≡ false → length (add k s) ≡ length s + 1
  unfolding add
  length-add_new k s n = rw n (omega (arith, length-append {ℓ} s (k ∷ [])))

  pub member-add_old : (j k : K) (s : List K) → member j s ≡ true → member j (add k s) ≡ true
  unfolding add
  member-add_old j k s h = ground (arith, member-append j s (k ∷ []))

module _ {ℓ κ} {K : Type ℓ} {V : Type κ} ⦃e : Eq K⦄ where
  abbrev pub keys : Dict K V → List K
  keys d = map (λ p. p.0) d

  pub keys-insert : (k : K) (v : V) (d : Dict K V) → keys (insert k v d) ≡ add k (keys d)
  unfolding insert add member
  keys-insert k v [] = refl
  keys-insert k v ((j, w) ∷ d) = ground (arith, keys-insert k v d)

  pub length-insert_new :
      (k : K) (v : V) (d : Dict K V)
      → member k (keys d) ≡ false
      → length (insert k v d) ≡ length d + 1
  unfolding insert member
  length-insert_new k v [] n = omega arith
  length-insert_new k v ((j, w) ∷ d) n = ground (arith, n, length-insert_new k v d)

  pub Distinct-keys-insert :
      (k : K) (v : V) (d : Dict K V) → Distinct (keys d) → Distinct (keys (insert k v d))
  Distinct-keys-insert k v d h = rw (keys-insert k v d) (Distinct-add k (keys d) h)

  -- Each key of a dictionary is listed, and found.
  pub keys-found :
      (d : Dict K V) → All (λ x. (member x.0 (keys d) ≡ true) × (is_some (lookup x.0 d) ≡ true)) d
  unfolding member lookup
  keys-found [] = tt
  keys-found ((k, v) ∷ d) =
      (ground (arith, e.beq_iff k k), All-map _ _ (λ x h. ground (arith, h)) d (keys-found d))
