-- ===== src/Scim/Groups/Requests/Kept.antt =====
-- What the ends of a request of src/scim/groups.rs leave of another group.
use claude_code_aws_gateway.Prelude.{
  ℕ, false, ◌≡◌, refl, ap, ◌∙◌, inl, inr, Option, none, some, List, [], ◌∷◌, eqb, eqb_iff, arith,
  Option-cases, nat_eq,
}
use claude_code_aws_gateway.Prelude.Text.{Text, text_eq}
use claude_code_aws_gateway.Prelude.Assoc.{Assoc, lookup, insert, lookup-insert}
use claude_code_aws_gateway.Scim.Groups.{
  Db, Response, ok, created, no_content, Step, go, fail, with_members, sync_roles_for_users,
}
use claude_code_aws_gateway.Scim.Groups.Membership.{has, set_members, track_all}
use claude_code_aws_gateway.Scim.Groups.Membership.Laws.{has-set_members}
use claude_code_aws_gateway.Scim.Groups.Tables.{Group, Directory, is_user, update_scim_group}
use claude_code_aws_gateway.Scim.Groups.Requests.Roles.{update-members}
use claude_code_aws_gateway.Scim.Groups.Patch.Noted.{Ends, Others}
use claude_code_aws_gateway.Scim.Groups.Requests.{
  members_set, fill, refill, updated, finish, synced,
}

pub lookup_other-insert :
    (g h : ℕ) (group : Group) (groups : Assoc ℕ Group)
    → eqb h g ≡ false
    → lookup h (insert g group groups) ≡ lookup h groups
lookup_other-insert g h group groups n =
    ground (arith, lookup-insert g h group groups, eqb_iff g h, eqb_iff h g)

update-groups :
    (g h : ℕ) (name : Text) (external_id : Option Text) (dir d : Directory)
    → update_scim_group g name external_id dir ≡ some (some d)
    → eqb h g ≡ false
    → lookup h d.groups ≡ lookup h dir.groups
unfolding update_scim_group
update-groups g h name external_id dir d e n = elim (Option-cases (lookup g dir.groups)) [
  | inl f ↦ ground arith
  | inr (group, f) ↦ ground (
    arith,
    lookup-insert g h (record group { display_name = name; external_id = external_id }) dir.groups,
    eqb_iff g h,
    eqb_iff h g,
  )
]

module _ (lowercase : Text → Text) (idp h u : ℕ) (before : Directory) where
  -- The group and the membership are the old ones.
  pub record IsKept (dir : Directory) : Type 0 where
    pub group : lookup h dir.groups ≡ lookup h before.groups
    pub membership : has h u dir.members ≡ has h u before.members

  members_set-IsKept :
      (r : Response) (g : ℕ) (ids affected : List ℕ) (db : Db)
      → eqb h g ≡ false
      → IsKept db.directory
      → IsKept (members_set lowercase idp r g ids affected db).1.directory
  unfolding sync_roles_for_users
  members_set-IsKept r g ids affected db n k =
      elim (Option-cases (set_members (is_user db.users) g ids db.directory.members)) [
        | inl e ↦ rw (e, members_set) k
        | inr (ms, e) ↦
            rw (e, members_set)
              (record {
                group = k.group;
                membership = ground (
                  arith,
                  has-set_members (is_user db.users) g h u ids db.directory.members ms e,
                  k.membership,
                );
              })
      ]

  pub fill-IsKept :
      (g : ℕ) (o : Option (List ℕ)) (db : Db)
      → eqb h g ≡ false
      → IsKept db.directory
      → IsKept (fill lowercase idp g o db).1.directory
  unfolding sync_roles_for_users
  fill-IsKept g none db n k = k
  fill-IsKept g (some []) db n k = k
  fill-IsKept g (some (v ∷ vs)) db n k = members_set-IsKept created g (v ∷ vs) (v ∷ vs) db n k

  pub refill-IsKept :
      (g : ℕ) (old : List ℕ) (o : Option (List ℕ)) (db : Db)
      → eqb h g ≡ false
      → IsKept db.directory
      → IsKept (refill lowercase idp g old o db).1.directory
  refill-IsKept g old none db n k = k
  refill-IsKept g old (some ids) db n k = members_set-IsKept ok g ids (track_all ids old) db n k

  updated_to-IsKept :
      (o : Option (Option Directory)) (f : Db → Response × Db) (db : Db)
      → IsKept db.directory
      → ((d : Directory) → o ≡ some (some d) → IsKept (f (record db { directory = d })).1.directory)
      → IsKept (updated o f db).1.directory
  updated_to-IsKept none f db k go_on = k
  updated_to-IsKept (some none) f db k go_on = k
  updated_to-IsKept (some (some d)) f db k go_on = go_on d refl

  -- An update of another group, and what follows it.
  pub updated-IsKept :
      (g : ℕ) (name : Text) (external_id : Option Text) (f : Db → Response × Db) (db : Db)
      → eqb h g ≡ false
      → IsKept db.directory
      → ((d : Directory) → IsKept d → IsKept (f (record db { directory = d })).1.directory)
      → IsKept (updated (update_scim_group g name external_id db.directory) f db).1.directory
  updated-IsKept g name external_id f db n k go_on =
      updated_to-IsKept (update_scim_group g name external_id db.directory) f db k (λ d e.
        go_on d (record {
          group = update-groups g h name external_id db.directory d e n ∙ k.group;
          membership =
              ap (has h u) (update-members g name external_id db.directory d e) ∙ k.membership;
        }))

  pub finish-IsKept :
      (g : ℕ) (s : Step) (db : Db)
      → eqb h g ≡ false
      → IsKept db.directory
      → Ends (is_user db.users) g u before.members s
      → IsKept (finish lowercase idp g s db).1.directory
  unfolding Ends Others sync_roles_for_users
  finish-IsKept g (fail r ms) db n k e = record { group = k.group; membership = e.0 h n }
  finish-IsKept g (go p) db n k e =
      updated-IsKept g p.name p.external_id (synced lowercase idp no_content p.users_to_sync)
        (with_members p.members db) n (record { group = k.group; membership = e.others h n })
        (λ d kept. kept)
