-- ===== src/Scim/Groups/Requests.antt =====
-- The requests of src/scim/groups.rs that change a group, for the provider of a token.
pub mod Roles
pub mod Outcomes
pub mod Synced
pub mod Kept
pub mod Scoped
use claude_code_aws_gateway.Prelude.{
  ℕ, Bool, true, false, Option, none, some, List, [], ◌∷◌, nat_eq, eqb, if◌then◌else◌,
}
use claude_code_aws_gateway.Prelude.Text.{Text, codes, text_eq}
use claude_code_aws_gateway.Prelude.Assoc.{lookup, insert}
use claude_code_aws_gateway.Prelude.Assoc as Assoc
use claude_code_aws_gateway.Json.{Json, null, boolean, number, string, array, object}
use claude_code_aws_gateway.Json.Access.{at, str_at}
use claude_code_aws_gateway.Scim.Groups.{
  Db, Response, ok, created, no_content, bad_request, not_found, conflict, internal, ScimPatchOp,
  Patched, Step, go, fail, required_name, with_members, sync_roles_for_users, extract_member_ids,
}
use claude_code_aws_gateway.Scim.Groups.Membership.{
  Members, set_members, clear, members_of, track_all, contains,
}
use claude_code_aws_gateway.Scim.Groups.Tables.{
  Group, Directory, is_user, update_scim_group, external_id_taken, is_external,
}
use claude_code_aws_gateway.Scim.Groups.Patch.{apply_ops}

-- The members of a body: none where the field is missing or null.
abbrev pub listed : (Json → Option (List ℕ)) → Option Json → Option (List ℕ)
listed f none = some []
listed f (some null) = some []
listed f (some (boolean b)) = f (boolean b)
listed f (some (number n)) = f (number n)
listed f (some (string s)) = f (string s)
listed f (some (array xs)) = f (array xs)
listed f (some (object fs)) = f (object fs)

pub data Call : Type 0 where
  create : ℕ → Json → Call
  replace : ℕ → Json → Call
  patch : ℕ → List ScimPatchOp → Call
  delete : ℕ → Call

abbrev pub updated : Option (Option Directory) → (Db → Response × Db) → Db → Response × Db
updated none f db = (internal, db)
updated (some none) f db = (not_found, db)
updated (some (some dir)) f db = f (record db { directory = dir })

abbrev pub unpatched : Group → Members → Patched
unpatched group ms = record {
  name = group.display_name;
  external_id = group.external_id;
  users_to_sync = [];
  members = ms;
}

-- The rows of the members go with the group.
abbrev pub delete_rows : ℕ → Db → Db
delete_rows id db = record db {
  directory = record db.directory {
    groups = Assoc.remove id db.directory.groups;
    members = clear id db.directory.members;
  };
}

-- The group in the scope of the token.
abbrev pub scoped : ℕ → Option Group → Option Group
scoped idp none = none
scoped idp (some g) = if eqb g.idp_id idp then some g else none

abbrev pub add_group : ℕ → ℕ → Text → Option Text → Db → Db
add_group idp fresh name external_id db = record db {
  directory = record db.directory {
    groups =
        insert fresh (record { display_name = name; external_id = external_id; idp_id = idp })
          db.directory.groups;
  };
}

module _ (lowercase : Text → Text) (idp : ℕ) where
  abbrev pub synced : Response → List ℕ → Db → Response × Db
  synced r us db = (r, sync_roles_for_users lowercase idp us db)

  abbrev pub members_set : Response → ℕ → List ℕ → List ℕ → Db → Response × Db
  members_set r id ids affected db =
      elim (set_members (is_user db.users) id ids db.directory.members) [
        | none ↦ (internal, db)
        | some ms ↦ synced r affected (with_members ms db)
      ]

  abbrev pub fill : ℕ → Option (List ℕ) → Db → Response × Db
  fill fresh none db = (bad_request, db)
  fill fresh (some []) db = synced created [] db
  fill fresh (some (u ∷ us)) db = members_set created fresh (u ∷ us) (u ∷ us) db

  abbrev pub refill : ℕ → List ℕ → Option (List ℕ) → Db → Response × Db
  refill id old none db = (bad_request, db)
  refill id old (some ids) db = members_set ok id ids (track_all ids old) db

  abbrev pub finish : ℕ → Step → Db → Response × Db
  finish id (fail r ms) db = (r, with_members ms db)
  finish id (go p) db =
      updated (update_scim_group id p.name p.external_id (with_members p.members db).directory)
        (synced no_content p.users_to_sync) (with_members p.members db)

module _ (lowercase : Text → Text) (parse_uuid : Text → Option ℕ) (idp : ℕ) where
  -- The id of a new group comes from the database.
  unfoldable pub create_group : ℕ → Json → Db → Response × Db
  unfolding at str_at extract_member_ids external_id_taken set_members is_user sync_roles_for_users
      insert
  create_group fresh body db = elim (required_name (str_at (codes "displayName") body)) [
    | none ↦ (bad_request, db)
    | some name ↦
        let external_id = str_at (codes "externalId") body in
        if external_id_taken fresh external_id idp db.directory.groups
        then (conflict, db)
        else fill lowercase idp fresh
            (listed (extract_member_ids parse_uuid) (at (codes "members") body))
            (add_group idp fresh name external_id db)
  ]

  unfoldable pub replace_group : ℕ → Json → Db → Response × Db
  unfolding at str_at extract_member_ids update_scim_group set_members members_of track_all is_user
      sync_roles_for_users lookup
  replace_group id body db = elim (scoped idp (lookup id db.directory.groups)) [
    | none ↦ (not_found, db)
    | some group ↦ elim (required_name (str_at (codes "displayName") body)) [
      | none ↦ (bad_request, db)
      | some name ↦
          updated (update_scim_group id name (str_at (codes "externalId") body) db.directory)
            (refill lowercase idp id (members_of (is_user db.users) id db.directory.members)
              (listed (extract_member_ids parse_uuid) (at (codes "members") body)))
            db
    ]
  ]

  unfoldable pub patch_group : ℕ → List ScimPatchOp → Db → Response × Db
  unfolding apply_ops update_scim_group is_user sync_roles_for_users lookup
  patch_group id ops db = elim (scoped idp (lookup id db.directory.groups)) [
    | none ↦ (not_found, db)
    | some group ↦
        finish lowercase idp id
          (apply_ops parse_uuid (is_user db.users) id lowercase ops
            (unpatched group db.directory.members))
          db
  ]

  unfoldable pub delete_group : ℕ → Db → Response × Db
  unfolding members_of is_user sync_roles_for_users lookup Assoc.remove clear
  delete_group id db = elim (scoped idp (lookup id db.directory.groups)) [
    | none ↦ (not_found, db)
    | some group ↦
        synced lowercase idp no_content (members_of (is_user db.users) id db.directory.members)
          (delete_rows id db)
  ]

  unfoldable pub handle : Call → Db → Response × Db
  unfolding create_group replace_group patch_group delete_group
  handle (create fresh body) db = create_group fresh body db
  handle (replace id body) db = replace_group id body db
  handle (patch id ops) db = patch_group id ops db
  handle (delete id) db = delete_group id db
