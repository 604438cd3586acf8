-- ===== src/Scim/Users/Confined.antt =====
-- What a request of src/scim/users.rs may change.
use claude_code_aws_gateway.Prelude.{
  ℕ, true, false, ◌≡◌, refl, subst, ◌⊎◌, inl, inr, none, some, List, eqb, eqb_iff, nat_eq, arith,
  Bool-cases, Option-cases,
}
use claude_code_aws_gateway.Prelude.Text.{Text, codes, text_eq}
use claude_code_aws_gateway.Prelude.Assoc.{lookup, insert, lookup-insert}
use claude_code_aws_gateway.Json.{Json}
use claude_code_aws_gateway.Json.Access.{str_at}
use claude_code_aws_gateway.Scim.Groups.{
  Response, ok, no_content, is_success, ScimPatchOp, required_name,
}
use claude_code_aws_gateway.Scim.Users.{
  User, Users, Draft, draft_of, with_draft, is_in_scope, scoped, is_known, is_taken,
  update_scim_user,
}
use claude_code_aws_gateway.Scim.Users.Patch.{apply_ops}
use claude_code_aws_gateway.Scim.Users.Requests.{
  draft_from, updated, patch_user, replace_user, create_scim_user, create_user, delete_user, Call,
  create, replace, patch, delete, handle,
}

-- The user that a request is for.
abbrev pub target : Call → ℕ
target (create role fresh body) = fresh
target (replace id body) = id
target (patch id ops) = id
target (delete id) = id

-- A new user has an id that no user has.
abbrev pub IsUnused : Call → Users → Type 0
IsUnused (create role fresh body) users = lookup fresh users ≡ none
IsUnused (replace id body) users = Unit
IsUnused (patch id ops) users = Unit
IsUnused (delete id) users = Unit

module _ (idp v : ℕ) (users : Users) (old : User) (known : lookup v users ≡ some old) where
  -- The row is the old one, or the request succeeded, was for it, and had it in its scope.
  unfoldable pub IsConfined : ℕ → Response × Users → Type 0
  IsConfined id r =
      (lookup v r.1 ≡ some old)
      ⊎ ((is_success r.0 ≡ true) × (id ≡ v) × (is_in_scope idp old ≡ true))

  unchanged : (id : ℕ) (r : Response) → IsConfined id (r, users)
  unfolding IsConfined
  unchanged id r = inl known

  inserted :
      (id : ℕ) (r : Response) (u next : User)
      → is_success r ≡ true
      → scoped idp (lookup id users) ≡ some u
      → IsConfined id (r, insert id next users)
  unfolding IsConfined
  inserted id r u next success found = elim (Bool-cases (eqb id v)) [
    | inl e ↦
        let same : id ≡ v = (eqb_iff id v).0 e in
        let at_v = subst (λ x. scoped idp (lookup x users) ≡ some u) same found in
        inr (success, same, ground (arith, rw known at at_v))
    | inr e ↦ inl (ground (arith, lookup-insert id v next users, known))
  ]

  -- A row under a new id leaves the others.
  beside :
      (fresh : ℕ) (u : User)
      → lookup fresh users ≡ none
      → lookup v (insert fresh u users) ≡ some old
  beside fresh u new = elim (Bool-cases (eqb fresh v)) [
    | inl e ↦
        let taken = subst (λ x. lookup x users ≡ none) ((eqb_iff fresh v).0 e) new in
        ground (arith, taken, known)
    | inr e ↦ ground (arith, lookup-insert fresh v u users, known)
  ]

  updated-IsConfined :
      (id : ℕ) (d : Draft) (u : User)
      → scoped idp (lookup id users) ≡ some u
      → IsConfined id (updated (update_scim_user id d users) users)
  unfolding update_scim_user is_success
  updated-IsConfined id d u found = elim (Option-cases (lookup id users)) [
    | inl e ↦ rw (e, update_scim_user) (unchanged id _)
    | inr (row, e) ↦ elim (Bool-cases (is_taken id d.email d.external_id users)) [
      | inl t ↦ rw (e, t, update_scim_user) (unchanged id _)
      | inr t ↦ rw (e, t, update_scim_user) (inserted id ok u (with_draft d row) refl found)
    ]
  ]

  module _ (lowercase : Text → Text) where
    patch-IsConfined :
        (id : ℕ) (ops : List ScimPatchOp) → IsConfined id (patch_user lowercase idp id ops users)
    unfolding patch_user
    patch-IsConfined id ops = elim (Option-cases (scoped idp (lookup id users))) [
      | inl e ↦ rw (e, patch_user) (unchanged id _)
      | inr (u, e) ↦ elim (Option-cases (apply_ops lowercase ops (draft_of u))) [
        | inl f ↦ rw (e, f, patch_user) (unchanged id _)
        | inr (d, f) ↦ rw (e, f, patch_user) (updated-IsConfined id d u e)
      ]
    ]

    replace-IsConfined :
        (id : ℕ) (body : Json) → IsConfined id (replace_user lowercase idp id body users)
    unfolding replace_user
    replace-IsConfined id body = elim (Option-cases (scoped idp (lookup id users))) [
      | inl e ↦ rw (e, replace_user) (unchanged id _)
      | inr (u, e) ↦ elim (Option-cases (required_name (str_at (codes "userName") body))) [
        | inl f ↦ rw (e, f, replace_user) (unchanged id _)
        | inr (email, f) ↦
            rw (e, f, replace_user) (updated-IsConfined id (draft_from lowercase email body) u e)
      ]
    ]

    create-IsConfined :
        (role : Text) (fresh : ℕ) (body : Json)
        → lookup fresh users ≡ none
        → IsConfined fresh (create_user lowercase idp role fresh body users)
    unfolding create_user IsConfined
    create-IsConfined role fresh body new =
        elim (Option-cases (required_name (str_at (codes "userName") body))) [
          | inl e ↦ rw (e, create_user) (inl known)
          | inr (email, e) ↦
              elim (Bool-cases (is_known idp email (str_at (codes "externalId") body) users)) [
                | inl k ↦ rw (e, k, create_user) (inl known)
                | inr k ↦
                    elim (Bool-cases
                      (is_taken fresh email (str_at (codes "externalId") body) users)) [
                        | inl t ↦ rw (e, k, t, create_user, create_scim_user) (inl known)
                        | inr t ↦
                            rw (e, k, t, create_user, create_scim_user) (inl (beside fresh _ new))
                      ]
              ]
        ]

  delete-IsConfined : (id : ℕ) → IsConfined id (delete_user idp id users)
  unfolding delete_user is_success
  delete-IsConfined id = elim (Option-cases (scoped idp (lookup id users))) [
    | inl e ↦ rw (e, delete_user) (unchanged id _)
    | inr (u, e) ↦
        rw (e, delete_user) (inserted id no_content u (record u { active = false }) refl e)
  ]

-- A user has the row of before the request, or the request succeeded, was for the user, and had the
-- user in its scope: a managed user of another provider never changes, and a request that fails
-- changes nobody. A new user has an id that no user has.
pub handle-IsConfined :
    (lowercase : Text → Text) (idp v : ℕ) (users : Users) (old : User) (call : Call)
    → lookup v users ≡ some old
    → IsUnused call users
    → (lookup v (handle lowercase idp call users).1 ≡ some old)
      ⊎ ((is_success (handle lowercase idp call users).0 ≡ true)
          × (target call ≡ v)
          × (is_in_scope idp old ≡ true))
unfolding handle IsConfined
handle-IsConfined lowercase idp v users old (create role fresh body) known new =
    create-IsConfined idp v users old known lowercase role fresh body new
handle-IsConfined lowercase idp v users old (replace id body) known new =
    replace-IsConfined idp v users old known lowercase id body
handle-IsConfined lowercase idp v users old (patch id ops) known new =
    patch-IsConfined idp v users old known lowercase id ops
handle-IsConfined lowercase idp v users old (delete id) known new =
    delete-IsConfined idp v users old known id
