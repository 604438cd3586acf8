-- ===== src/Scim/Groups/Tests.antt =====
-- src/scim/groups.rs on small examples.
use claude_code_aws_gateway.Prelude.{
  ℕ, false, ◌≡◌, refl, Option, none, some, [], ◌∷◌, nat_eq, length,
}
use claude_code_aws_gateway.Prelude.Text.{Text, codes, to_lower}
use claude_code_aws_gateway.Prelude.Assoc.{lookup}
use claude_code_aws_gateway.Json.{Json, string, array, object, end, field}
use claude_code_aws_gateway.Json.Access.{items}
use claude_code_aws_gateway.Scim.Groups.{Db, bad_request, conflict, ScimPatchOp, is_success}
use claude_code_aws_gateway.Scim.Groups.Membership.{has}
use claude_code_aws_gateway.Scim.Groups.Tables.{Group, IdentityProvider, evaluate_user_role}
use claude_code_aws_gateway.Scim.Groups.Requests.{Call, create, patch, handle}
use claude_code_aws_gateway.Scim.Groups.Requests.Outcomes.{IsSynced}
use claude_code_aws_gateway.Scim.Groups.Requests.Synced.{handle-IsSynced}
use claude_code_aws_gateway.Scim.Groups.Requests.Kept.{IsKept}
use claude_code_aws_gateway.Scim.Groups.Requests.Scoped.{handle-IsKept}

-- A uuid is as long as its number.
abbrev parse : Text → Option ℕ
parse s = some (length s)

abbrev admins : Group
admins = record { display_name = codes "Admins"; external_id = none; idp_id = 1 }

abbrev others : Group
others = record { display_name = codes "Others"; external_id = some (codes "x"); idp_id = 2 }

abbrev provider : IdentityProvider
provider = record {
  scim_admin_groups = array (items (string (codes "admins") ∷ []));
  default_role = codes "member";
}

-- The user 3 is an admin, the user 4 is not.
abbrev db : Db
db = record {
  users = (3, codes "admin") ∷ (4, codes "member") ∷ [];
  directory = record {
    groups = (1, admins) ∷ (2, others) ∷ [];
    members = (1, 3) ∷ (2, 4) ∷ [];
    providers = (1, provider) ∷ [];
  };
}

abbrev member : Text → Json
member s = object (field (codes "value") (string s) end)

abbrev op : Text → Text → Option Json → ScimPatchOp
op kind path value = record { op = kind; path = some path; value = value }

abbrev swap : Call
swap = patch 1 (
    op (codes "Remove") (codes "members[value eq \"abc\"]") none
    ∷ op (codes "Add") (codes "members") (some (array (items (member (codes "abcd") ∷ []))))
    ∷ [])

swapped : (handle to_lower parse 1 swap db).1.users ≡ (3, codes "member") ∷ (4, codes "admin") ∷ []
unfolding handle to_lower lookup has evaluate_user_role is_success
swapped = refl

-- A group that loses its name keeps the roles of its members.
abbrev rename : Call
rename = patch 1 (op (codes "replace") (codes "displayName") (some (string (codes "Old"))) ∷ [])

renamed :
    (lookup 3 (handle to_lower parse 1 rename db).1.users ≡ some (codes "admin"))
    × (evaluate_user_role to_lower (handle to_lower parse 1 rename db).1.directory 3 1
        ≡ codes "member")
unfolding handle to_lower lookup has evaluate_user_role is_success
renamed = (refl, refl)

-- The rows of a patch that fails are changed, and the roles are not.
abbrev half : Call
half = patch 1 (
    op (codes "remove") (codes "members") none
    ∷ op (codes "add") (codes "members") (some (string []))
    ∷ [])

half_done :
    ((handle to_lower parse 1 half db).0 ≡ bad_request)
    × (has 1 3 (handle to_lower parse 1 half db).1.directory.members ≡ false)
    × (lookup 3 (handle to_lower parse 1 half db).1.users ≡ some (codes "admin"))
unfolding handle to_lower lookup has evaluate_user_role is_success
half_done = (refl, refl, refl)

-- A group whose members are not valid is there after the error.
abbrev broken : Json
broken = object (
    field (codes "displayName") (string (codes "New"))
      (field (codes "externalId") (string (codes "y")) (field (codes "members") (string []) end)))

left_over :
    ((handle to_lower parse 1 (create 9 broken) db).0 ≡ bad_request)
    × ((handle to_lower parse 1
          (create 10 broken)
          (handle to_lower parse 1 (create 9 broken) db).1).0
        ≡ conflict)
unfolding handle to_lower lookup has evaluate_user_role is_success
left_over = (refl, refl)

handle-IsSynced_example : IsSynced to_lower 1 1 4 db (handle to_lower parse 1 swap db).1
unfolding handle to_lower lookup has evaluate_user_role is_success
handle-IsSynced_example = handle-IsSynced to_lower parse 1 1 4 swap db (codes "member") refl tt refl

handle-IsKept_example :
    IsKept to_lower 1 2 3 db.directory (handle to_lower parse 1 swap db).1.directory
unfolding lookup
handle-IsKept_example = handle-IsKept to_lower parse 1 2 3 swap db others refl refl tt
