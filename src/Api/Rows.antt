-- ===== src/Api/Rows.antt =====
-- The table under a write to the row of one user: what the other users have, and the ids.
use sim_swarm.Prelude.{
  ℕ, ◌+◌, ◌<◌, ◌≡◌, refl, sym, ap, subst, ◌∙◌, Bool, true, false, List, [], ◌∷◌, ◌++◌, some, not,
  ◌==◌, ==_iff, All, All-map, All-append, map, select, arith, Bool-cases, inl, inr, some-injective,
}
use sim_swarm.Prelude.Text.{Text, text_eq}
use sim_swarm.Prelude.Dict.{nat_eq, member, Distinct, Distinct-snoc}
use sim_swarm.Jobs.Row.{Job}
use sim_swarm.Jobs.Store.{Table, update_where, find_job}
use sim_swarm.Api.Service.{Service}

abbrev pub ids : Table → List ℕ
ids t = map (λ j. j.id) t

-- The rows of the other users.
abbrev pub is_other : Text → Job → Bool
is_other user j = not (text_eq j.user_id user)

abbrev pub others : Text → Table → Table
others user t = select (is_other user) t

-- No two rows have one id, and the sequence is past all of them.
pub record IsKeyed (s : Service) : Type 0 where
  pub distinct : Distinct (ids s.table)
  pub below : All (λ j. j.id < s.next_id) s.table

-- A change of a row that leaves its key and its owner.
pub record KeepsOwner (change : Job → Job) : Type 0 where
  pub same_id : (j : Job) → (change j).id ≡ j.id
  pub same_owner : (j : Job) → (change j).user_id ≡ j.user_id

-- A row of the user is there under the id.
pub record IsOwn (user : Text) (id : ℕ) (t : Table) : Type 0 where
  pub job : Job
  pub found : find_job id t ≡ some job
  pub own : text_eq job.user_id user ≡ true

update_none :
    (id : ℕ) (change : Job → Job) (t : Table)
    → member id (ids t) ≡ false
    → update_where (λ j. j.id == id) change t ≡ t
unfolding update_where member
update_none id change [] n = refl
update_none id change (j ∷ t) n = ground (arith, n, update_none id change t)

delete_none :
    (id : ℕ) (t : Table) → member id (ids t) ≡ false → select (λ j. not (j.id == id)) t ≡ t
unfolding member
delete_none id [] n = refl
delete_none id (j ∷ t) n = ground (arith, n, delete_none id t)

pub ids-update :
    (id : ℕ) (change : Job → Job) (t : Table)
    → KeepsOwner change
    → ids (update_where (λ j. j.id == id) change t) ≡ ids t
unfolding update_where
ids-update id change [] k = refl
ids-update id change (j ∷ t) k = elim (Bool-cases (j.id == id)) [
  | inl hit ↦ rw hit (
      ap (λ i. i ∷ ids (update_where (λ x. x.id == id) change t)) (k.same_id j)
      ∙ ap (λ r. j.id ∷ r) (ids-update id change t k))
  | inr miss ↦ rw miss (ap (λ r. j.id ∷ r) (ids-update id change t k))
]

-- The row of the id is the first, or stands behind it.
head_only :
    (id : ℕ) (j : Job) (t : Table)
    → (j.id == id) ≡ true
    → Distinct (ids (j ∷ t))
    → member id (ids t) ≡ false
head_only id j t hit d = ground (arith, hit, d.0, ==_iff j.id id)

own_head :
    (user : Text) (id : ℕ) (j : Job) (t : Table)
    → (j.id == id) ≡ true
    → IsOwn user id (j ∷ t)
    → (text_eq j.user_id user ≡ true) × (is_other user j ≡ false)
unfolding find_job
own_head user id j t hit h =
    let e : j ≡ h.job = some-injective (sym (rw (hit, find_job) refl) ∙ h.found) in
    let mine : text_eq j.user_id user ≡ true = rw e h.own in (mine, rw mine refl)

IsOwn-tail :
    (user : Text) (id : ℕ) (j : Job) (t : Table)
    → (j.id == id) ≡ false
    → IsOwn user id (j ∷ t)
    → IsOwn user id t
unfolding find_job
IsOwn-tail user id j t miss h = record {
  job = h.job;
  found = ground (arith, miss, h.found);
  own = h.own;
}

abbrev first_id : ℕ → List ℕ → ℕ
first_id d [] = d
first_id d (i ∷ is) = i

abbrev rest_ids : List ℕ → List ℕ
rest_ids [] = []
rest_ids (i ∷ is) = is

pub others-update :
    (user : Text) (id : ℕ) (change : Job → Job) (t : Table)
    → KeepsOwner change
    → Distinct (ids t)
    → IsOwn user id t
    → others user (update_where (λ j. j.id == id) change t) ≡ others user t
unfolding update_where find_job
others-update user id change [] k d h = refl
others-update user id change (j ∷ t) k d h = elim (Bool-cases (j.id == id)) [
  | inl hit ↦
      let rest = update_none id change t (head_only id j t hit d) in
      let (first, mine) = own_head user id j t hit h in
      let same : is_other user (change j) ≡ false = rw (k.same_owner j) mine in
      rw (hit, rest) (rw (same, mine) refl)
  | inr miss ↦
      let rest = others-update user id change t k d.1 (IsOwn-tail user id j t miss h) in
      rw (miss, rest) refl
]

pub others-delete :
    (user : Text) (id : ℕ) (t : Table)
    → Distinct (ids t)
    → IsOwn user id t
    → others user (select (λ j. not (j.id == id)) t) ≡ others user t
unfolding find_job
others-delete user id [] d h = refl
others-delete user id (j ∷ t) d h = elim (Bool-cases (j.id == id)) [
  | inl hit ↦
      let rest = delete_none id t (head_only id j t hit d) in
      let (first, mine) = own_head user id j t hit h in rw (hit, rest) (rw mine refl)
  | inr miss ↦
      let rest = others-delete user id t d.1 (IsOwn-tail user id j t miss h) in
      rw miss (elim (Bool-cases (is_other user j)) [
        | inl o ↦ rw o (ap (λ r. j ∷ r) rest)
        | inr m ↦ rw m rest
      ])
]

pub others-append :
    (user : Text) (job : Job) (t : Table)
    → text_eq job.user_id user ≡ true
    → others user (t ++ job ∷ []) ≡ others user t
others-append user job [] own = rw own refl
others-append user job (j ∷ t) own = elim (Bool-cases (is_other user j)) [
  | inl o ↦ rw o (ap (λ r. j ∷ r) (others-append user job t own))
  | inr m ↦ rw m (others-append user job t own)
]

pub ids-append : (t : Table) (job : Job) → ids (t ++ job ∷ []) ≡ ids t ++ job.id ∷ []
ids-append [] job = refl
ids-append (j ∷ t) job = ap (λ r. j.id ∷ r) (ids-append t job)

pub next_id_new : (n : ℕ) (t : Table) → All (λ j. j.id < n) t → member n (ids t) ≡ false
unfolding member
next_id_new n [] b = refl
next_id_new n (j ∷ t) b = ground (arith, b.0, next_id_new n t b.1)

-- A row is added under the next id.
pub IsKeyed-append :
    (job : Job) (s s2 : Service)
    → job.id ≡ s.next_id
    → s2.table ≡ s.table ++ job ∷ []
    → s2.next_id ≡ s.next_id + 1
    → IsKeyed s
    → IsKeyed s2
IsKeyed-append job s s2 i t n h = record {
  distinct =
      rw (t, ids-append s.table job, i)
        (Distinct-snoc s.next_id (ids s.table) (next_id_new s.next_id s.table h.below) h.distinct);
  below =
      rw (t, n)
        (All-append (λ j. j.id < s.next_id + 1) s.table (job ∷ [])
          (All-map _ _ (λ j b. omega (arith, b)) s.table h.below) (omega (arith, i), tt));
}

below_ids : (n : ℕ) (t u : Table) → ids u ≡ ids t → All (λ j. j.id < n) t → All (λ j. j.id < n) u
below_ids n [] [] e b = tt
below_ids n [] (k ∷ u) e b = cc
below_ids n (j ∷ t) [] e b = tt
below_ids n (j ∷ t) (k ∷ u) e b =
    (subst (λ i. i < n) (sym (ap (first_id 0) e)) b.0, below_ids n t u (ap rest_ids e) b.1)

-- A row is changed.
pub IsKeyed-update :
    (id : ℕ) (change : Job → Job) (s s2 : Service)
    → KeepsOwner change
    → s2.table ≡ update_where (λ j. j.id == id) change s.table
    → s2.next_id ≡ s.next_id
    → IsKeyed s
    → IsKeyed s2
IsKeyed-update id change s s2 k t n h =
    let same : ids s2.table ≡ ids s.table = ap ids t ∙ ids-update id change s.table k in
    record {
      distinct = subst Distinct (sym same) h.distinct;
      below =
          subst (λ m. All (λ j. j.id < m) s2.table) (sym n)
            (below_ids s.next_id s.table s2.table same h.below);
    }

member_delete :
    (i id : ℕ) (t : Table)
    → member i (ids t) ≡ false
    → member i (ids (select (λ j. not (j.id == id)) t)) ≡ false
unfolding member
member_delete i id [] n = refl
member_delete i id (j ∷ t) n = ground (arith, n, member_delete i id t)

Distinct-delete :
    (id : ℕ) (t : Table) → Distinct (ids t) → Distinct (ids (select (λ j. not (j.id == id)) t))
Distinct-delete id [] d = tt
Distinct-delete id (j ∷ t) d = elim (Bool-cases (j.id == id)) [
  | inl hit ↦ rw hit (Distinct-delete id t d.1)
  | inr miss ↦ rw miss (member_delete j.id id t d.0, Distinct-delete id t d.1)
]

All-delete :
    (P : Job → Type 0) (id : ℕ) (t : Table) → All P t → All P (select (λ j. not (j.id == id)) t)
All-delete P id [] h = tt
All-delete P id (j ∷ t) h = elim (Bool-cases (j.id == id)) [
  | inl hit ↦ rw hit (All-delete P id t h.1)
  | inr miss ↦ rw miss (h.0, All-delete P id t h.1)
]

-- A row is deleted.
pub IsKeyed-delete :
    (id : ℕ) (s : Service)
    → IsKeyed s
    → IsKeyed (record s { table = select (λ j. not (j.id == id)) s.table })
IsKeyed-delete id s h = record {
  distinct = Distinct-delete id s.table h.distinct;
  below = All-delete (λ j. j.id < s.next_id) id s.table h.below;
}
