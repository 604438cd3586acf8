-- ===== src/Scim/Groups/Patch/Noted.antt =====
-- Whom the operations of a patch of a group note, against the rows that they change.
use claude_code_aws_gateway.Prelude.{
  ℕ, Bool, true, false, ◌&&◌, ◌≡◌, refl, ◌∙◌, Option, none, some, List, [], ◌∷◌, eqb, eqb_iff, inl,
  inr, arith, Bool-cases, Option-cases, ◌==◌, if◌then◌else◌,
}
use claude_code_aws_gateway.Prelude.Text.{Text, codes, text_eq}
use claude_code_aws_gateway.Json.{Json, Fields, end, field}
use claude_code_aws_gateway.Json.Access.{as_str}
use claude_code_aws_gateway.Scim.Groups.{
  bad_request, is_success, Patched, Step, go, fail, then_step,
}
use claude_code_aws_gateway.Scim.Groups.Membership.{
  Members, has, contains, remove_member, set_members, add_members, members_of, track, track_all,
}
use claude_code_aws_gateway.Scim.Groups.Membership.Laws.{
  has-remove_member, contains-track, contains-track_all, has-set_members, has-add_members,
  contains-members_of,
}
use claude_code_aws_gateway.Scim.Groups.Patch.{
  put_name, put_field, put_fields, put_object, remove_each, replaced, added, put_members, cleared,
}

module _ (is_user : ℕ → Bool) (id u : ℕ) (base : Members) where
  -- The rows of the user in other groups are the old ones.
  unfoldable pub Others : Members → Type 0
  Others ms = (h : ℕ) → eqb h id ≡ false → has h u ms ≡ has h u base

  -- A user whose membership of the group is not the old one is noted.
  pub record IsNoted (p : Patched) : Type 0 where
    pub others : Others p.members
    pub noted :
        is_user u ≡ true → contains u p.users_to_sync ≡ false → has id u p.members ≡ has id u base

  unfoldable pub Ends : Step → Type 0
  Ends (go p) = IsNoted p
  Ends (fail r ms) = Others ms × (is_success r ≡ false)

  pub then_step-Ends :
      (s : Step) (f : Patched → Step)
      → Ends s
      → ((p : Patched) → IsNoted p → Ends (f p))
      → Ends (then_step s f)
  unfolding Ends
  then_step-Ends (go p) f e k = k p e
  then_step-Ends (fail r ms) f e k = e

  pub either-Ends : (b : Bool) (s t : Step) → Ends s → Ends t → Ends (if b then s else t)
  either-Ends true s t e f = e
  either-Ends false s t e f = f

  pub refused : (p : Patched) → IsNoted p → Ends (fail bad_request p.members)
  unfolding Ends is_success
  refused p n = (n.others, refl)

  -- The other fields do not matter.
  pub fields-IsNoted :
      (p : Patched) (name : Text) (external_id : Option Text)
      → IsNoted p
      → IsNoted (record p { name = name; external_id = external_id })
  fields-IsNoted p name external_id n = record { others = n.others; noted = n.noted }

  pub put_name-Ends : (o : Option Text) (p : Patched) → IsNoted p → Ends (put_name o p)
  unfolding Ends
  put_name-Ends none p n = refused p n
  put_name-Ends (some name) p n = fields-IsNoted p name p.external_id n

  put_field-Ends : (k : Text) (v : Json) (p : Patched) → IsNoted p → Ends (put_field k v p)
  unfolding Ends
  put_field-Ends k v p n =
      either-Ends (k == codes "displayName") _ _ (put_name-Ends (as_str v) p n)
        (either-Ends (k == codes "externalId") _ _ (fields-IsNoted p p.name (as_str v) n) n)

  put_fields-Ends : (fs : Fields) (p : Patched) → IsNoted p → Ends (put_fields fs p)
  unfolding put_fields
  put_fields-Ends end p n = unfold Ends in n
  put_fields-Ends (field k v fs) p n =
      then_step-Ends (put_field k v p) (put_fields fs) (put_field-Ends k v p n) (put_fields-Ends fs)

  pub put_object-Ends : (o : Option Fields) (p : Patched) → IsNoted p → Ends (put_object o p)
  put_object-Ends none p n = refused p n
  put_object-Ends (some fs) p n = put_fields-Ends fs p n

  remove_one-IsNoted :
      (v : ℕ) (p : Patched)
      → IsNoted p
      → IsNoted (record p {
        members = remove_member id v p.members;
        users_to_sync = track v p.users_to_sync;
      })
  unfolding Others
  remove_one-IsNoted v p n = record {
    others = λ h e. ground (arith, has-remove_member id v h u p.members, n.others h e);
    noted = λ user e. ground (
      arith,
      has-remove_member id v id u p.members,
      contains-track u v p.users_to_sync,
      n.noted user,
    );
  }

  pub remove_each-IsNoted : (vs : List ℕ) (p : Patched) → IsNoted p → IsNoted (remove_each id vs p)
  unfolding remove_each
  remove_each-IsNoted [] p n = n
  remove_each-IsNoted (v ∷ vs) p n = remove_each-IsNoted vs _ (remove_one-IsNoted v p n)

  -- A list of members that was set, with the old members and the new ones noted.
  set-IsNoted :
      (vs us : List ℕ) (ms : Members) (p : Patched)
      → set_members is_user id vs p.members ≡ some ms
      → ((is_user u ≡ true)
          → contains u us ≡ false
          → (contains u vs ≡ false)
            × (has id u p.members ≡ false)
            × (contains u p.users_to_sync ≡ false))
      → IsNoted p
      → IsNoted (record p { members = ms; users_to_sync = us })
  unfolding Others
  set-IsNoted vs us ms p set fresh n = record {
    others =
        λ h e. ground (arith, has-set_members is_user id h u vs p.members ms set, n.others h e);
    noted = λ user e.
        let f = fresh user e in
        ground (
          arith,
          has-set_members is_user id id u vs p.members ms set,
          n.noted user f.2,
          f.0,
          f.1,
          eqb_iff id id,
        );
  }

  replaced-Ends :
      (vs : List ℕ) (p : Patched)
      → IsNoted p
      → Ends (replaced is_user id vs (set_members is_user id vs p.members) p)
  unfolding Ends is_success
  replaced-Ends vs p n = elim (Option-cases (set_members is_user id vs p.members)) [
    | inl e ↦ rw e (n.others, refl)
    | inr (ms, e) ↦ rw e (
        set-IsNoted vs _ ms p e
          (λ user f. ground (
            arith,
            contains-track_all u vs (track_all (members_of is_user id p.members) p.users_to_sync),
            contains-track_all u (members_of is_user id p.members) p.users_to_sync,
            contains-members_of is_user id u p.members user,
          ))
          n)
  ]

  pub cleared-Ends :
      (p : Patched) → IsNoted p → Ends (cleared is_user id (set_members is_user id [] p.members) p)
  unfolding Ends is_success contains
  cleared-Ends p n = elim (Option-cases (set_members is_user id [] p.members)) [
    | inl e ↦ rw e (n.others, refl)
    | inr (ms, e) ↦ rw e (
        set-IsNoted [] _ ms p e
          (λ user f. ground (
            arith,
            contains-track_all u (members_of is_user id p.members) p.users_to_sync,
            contains-members_of is_user id u p.members user,
          ))
          n)
  ]

  added_to-Ends :
      (vs : List ℕ) (r : Bool × Members) (p : Patched)
      → ((h : ℕ) → (eqb h id && contains u vs) ≡ false → has h u r.1 ≡ has h u p.members)
      → IsNoted p
      → Ends (added vs r p)
  unfolding Ends is_success Others
  added_to-Ends vs (false, ms) p kept n = (λ h e. kept h (rw e refl) ∙ n.others h e, refl)
  added_to-Ends vs (true, ms) p kept n = record {
    others = λ h e. kept h (rw e refl) ∙ n.others h e;
    noted = λ user e.
        ground
          (arith, contains-track_all u vs p.users_to_sync, kept id, n.noted user, eqb_iff id id);
  }

  pub put_members-Ends :
      (is_replace : Bool) (o : Option (List ℕ)) (p : Patched)
      → IsNoted p
      → Ends (put_members is_user id is_replace o p)
  put_members-Ends is_replace none p n = refused p n
  put_members-Ends true (some vs) p n = replaced-Ends vs p n
  put_members-Ends false (some vs) p n =
      added_to-Ends vs (add_members is_user id vs p.members) p
        (λ h e. has-add_members is_user id h u vs p.members e) n

  -- The memberships of a user that is not noted are the old ones.
  pub noted-kept :
      (p : Patched)
      → IsNoted p
      → is_user u ≡ true
      → contains u p.users_to_sync ≡ false
      → (h : ℕ) → has h u p.members ≡ has h u base
  unfolding Others
  noted-kept p n user c h = elim (Bool-cases (eqb h id)) [
    | inr e ↦ n.others h e
    | inl e ↦ let same : h ≡ id = (eqb_iff h id).0 e in rw same (n.noted user c)
  ]
