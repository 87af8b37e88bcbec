-- ===== src/Api/Frames.antt =====
-- Every request: the rows of the other users, the ids, and what a refusal leaves.
use sim_swarm.Prelude.{
  ℕ, ◌+◌, ◌≡◌, ◌⊎◌, refl, ap, ◌∙◌, Bool, true, false, [], ◌∷◌, ◌++◌, none, some, ◌==◌, arith,
  Bool-cases, Option-cases, inl, inr,
}
use sim_swarm.Prelude.Text.{Text, text_eq}
use sim_swarm.Prelude.Dict.{nat_eq}
use sim_swarm.Jobs.Row.{Job, completed, status_eq}
use sim_swarm.Jobs.Store.{Table, update_where, find_job}
use sim_swarm.Api.Service.{Reply, done, refused, Service, owned}
use sim_swarm.Api.Access.{delete_job, create_share_link, revoke_share_link, current_token}
use sim_swarm.Api.Drafts.{get_user_draft}
use sim_swarm.Api.Rows.{
  others, IsKeyed, IsOwn, KeepsOwner, IsKeyed-append, IsKeyed-update, IsKeyed-delete, others-update,
  others-delete, others-append,
}

abbrev pub is_refused {ℓ} : {A : Type ℓ} → Reply A → Bool
is_refused (done a) = false
is_refused (refused code) = true

-- What any request of a user leaves.
pub record Frame {ℓ} {A : Type ℓ} (user : Text) (s : Service) (x : Reply A × Service) : Type 0 where
  pub keyed : IsKeyed x.1
  pub rest : others user x.1.table ≡ others user s.table
  pub unchanged : is_refused x.0 ≡ true → (x.1.table ≡ s.table) × (x.1.started ≡ s.started)

pub Reply-cases {ℓ} :
    {A : Type ℓ} (r : Reply A) → ((code : ℕ) × (r ≡ refused code)) ⊎ ((a : A) × (r ≡ done a))
Reply-cases (done a) = inr (a, refl)
Reply-cases (refused code) = inl (code, refl)

pub Frame-same {ℓ} :
    {A : Type ℓ} (user : Text) (s : Service) (r : Reply A) → IsKeyed s → Frame user s (r, s)
Frame-same user s r h = record { keyed = h; rest = refl; unchanged = λ e. (refl, refl) }

pub Frame-update {ℓ} :
    {A : Type ℓ} (user : Text) (id : ℕ) (change : Job → Job) (s s2 : Service) (a : A)
    → KeepsOwner change
    → s2.table ≡ update_where (λ j. j.id == id) change s.table
    → s2.next_id ≡ s.next_id
    → IsOwn user id s.table
    → IsKeyed s
    → Frame user s (done a, s2)
Frame-update user id change s s2 a k t n o h = record {
  keyed = IsKeyed-update id change s s2 k t n h;
  rest = ap (others user) t ∙ others-update user id change s.table k h.distinct o;
  unchanged = λ e. cc;
}

pub Frame-append {ℓ} :
    {A : Type ℓ} (user : Text) (job : Job) (s s2 : Service) (a : A)
    → text_eq job.user_id user ≡ true
    → job.id ≡ s.next_id
    → s2.table ≡ s.table ++ job ∷ []
    → s2.next_id ≡ s.next_id + 1
    → IsKeyed s
    → Frame user s (done a, s2)
Frame-append user job s s2 a u i t n h = record {
  keyed = IsKeyed-append job s s2 i t n h;
  rest = ap (others user) t ∙ others-append user job s.table u;
  unchanged = λ e. cc;
}

pub owned-IsOwn :
    (user : Text) (id : ℕ) (t : Table) (job : Job) → owned user id t ≡ done job → IsOwn user id t
unfolding owned
owned-IsOwn user id t job e = elim (Option-cases (find_job id t)) [
  | inl n ↦ ground (arith, e, n)
  | inr (k, f) ↦ elim (Bool-cases (text_eq k.user_id user)) [
    | inl y ↦ record { job = k; found = f; own = y }
    | inr n ↦ ground (arith, e, f, n)
  ]
]

pub get_user_draft-IsOwn :
    (user : Text) (id : ℕ) (t : Table) (job : Job)
    → get_user_draft user id t ≡ done job
    → IsOwn user id t
unfolding get_user_draft
get_user_draft-IsOwn user id t job e = elim (Option-cases (find_job id t)) [
  | inl n ↦ ground (arith, e, n)
  | inr (k, f) ↦ elim (Bool-cases (text_eq k.user_id user)) [
    | inl y ↦ record { job = k; found = f; own = y }
    | inr n ↦ ground (arith, e, f, n)
  ]
]

pub delete_job-Frame :
    (user : Text) (id : ℕ) (s : Service) → IsKeyed s → Frame user s (delete_job user id s)
unfolding delete_job
delete_job-Frame user id s h = elim (Reply-cases (owned user id s.table)) [
  | inl (code, e) ↦ rw (e, delete_job) (Frame-same user s (refused code) h)
  | inr (job, e) ↦
      rw (e, delete_job)
        (record {
          keyed = IsKeyed-delete id s h;
          rest = others-delete user id s.table h.distinct (owned-IsOwn user id s.table job e);
          unchanged = λ r. cc;
        })
]

pub create_share_link-Frame :
    (user : Text) (id : ℕ) (token : Text) (s : Service)
    → IsKeyed s
    → Frame user s (create_share_link user id token s)
unfolding create_share_link
create_share_link-Frame user id token s h = elim (Reply-cases (owned user id s.table)) [
  | inl (code, e) ↦ rw (e, create_share_link) (Frame-same user s (refused code) h)
  | inr (job, e) ↦
      rw (e, create_share_link)
        (elim (Bool-cases (status_eq job.status completed)) [
          | inr n ↦ rw n (Frame-same user s (refused 400) h)
          | inl y ↦ rw y (elim (Option-cases (current_token job.share_token)) [
            | inr (old, o) ↦ rw o (Frame-same user s (done old) h)
            | inl n ↦ rw n (
                Frame-update user id (λ j. record j { share_token = some token }) s _ token
                  (record { same_id = λ j. refl; same_owner = λ j. refl }) refl refl
                  (owned-IsOwn user id s.table job e) h)
          ])
        ])
]

pub revoke_share_link-Frame :
    (user : Text) (id : ℕ) (s : Service) → IsKeyed s → Frame user s (revoke_share_link user id s)
unfolding revoke_share_link
revoke_share_link-Frame user id s h = elim (Reply-cases (owned user id s.table)) [
  | inl (code, e) ↦ rw (e, revoke_share_link) (Frame-same user s (refused code) h)
  | inr (job, e) ↦
      rw (e, revoke_share_link)
        (Frame-update user id (λ j. record j { share_token = none }) s _ tt
          (record { same_id = λ j. refl; same_owner = λ j. refl }) refl refl
          (owned-IsOwn user id s.table job e) h)
]
