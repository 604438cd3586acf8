-- ===== src/Scim/Groups/Membership/Laws.antt =====
-- Who is a member after each statement on the rows.
use claude_code_aws_gateway.Prelude.{
  ℕ, Bool, true, false, not, ◌&&◌, ◌||◌, ◌≡◌, refl, some, List, [], ◌∷◌, ◌++◌, eqb, eqb_iff, inl,
  inr, arith, Option-cases, if◌then◌else◌,
}
use claude_code_aws_gateway.Scim.Groups.Membership.{
  Members, has, contains, track, track_all, clear, remove_member, insert_member, insert_all,
  set_members, add_members, members_of,
}

pub has-clear : (g h u : ℕ) (ms : Members) → has h u (clear g ms) ≡ not (eqb h g) && has h u ms
unfolding has clear
has-clear g h u [] = ground arith
has-clear g h u ((i, v) ∷ ms) =
    ground (arith, has-clear g h u ms, eqb_iff h g, eqb_iff g i, eqb_iff h i)

pub has-remove_member :
    (g v h u : ℕ) (ms : Members)
    → has h u (remove_member g v ms) ≡ not (eqb h g && eqb u v) && has h u ms
unfolding has remove_member
has-remove_member g v h u [] = ground arith
has-remove_member g v h u ((i, w) ∷ ms) = ground (
  arith,
  has-remove_member g v h u ms,
  eqb_iff h g,
  eqb_iff g i,
  eqb_iff h i,
  eqb_iff u v,
  eqb_iff v w,
  eqb_iff u w,
)

contains-append :
    (u : ℕ) (us : List ℕ) (v : ℕ) → contains u (us ++ v ∷ []) ≡ contains u us || eqb u v
unfolding contains
contains-append u [] v = ground arith
contains-append u (w ∷ us) v = ground (arith, contains-append u us v)

pub contains-track : (u v : ℕ) (us : List ℕ) → contains u (track v us) ≡ eqb u v || contains u us
unfolding track
contains-track u v us = ground (arith, contains-append u us v, eqb_iff u v)

pub contains-track_all :
    (u : ℕ) (vs us : List ℕ) → contains u (track_all vs us) ≡ contains u vs || contains u us
unfolding contains track_all
contains-track_all u [] us = refl
contains-track_all u (v ∷ vs) us =
    ground (arith, contains-track_all u vs (track v us), contains-track u v us)

module _ (is_user : ℕ → Bool) where
  has-insert_member :
      (g v h u : ℕ) (ms next : Members)
      → insert_member is_user g v ms ≡ some next
      → has h u next ≡ (eqb h g && eqb u v) || has h u ms
  unfolding insert_member has
  has-insert_member g v h u ms next e = ground (arith, eqb_iff h g, eqb_iff u v)

  pub has-insert_all :
      (g h u : ℕ) (vs : List ℕ) (ms next : Members)
      → insert_all is_user g vs ms ≡ some next
      → has h u next ≡ (eqb h g && contains u vs) || has h u ms
  unfolding insert_all contains
  has-insert_all g h u [] ms next e = ground arith
  has-insert_all g h u (v ∷ vs) ms next e = elim (Option-cases (insert_member is_user g v ms)) [
    | inl n ↦ ground arith
    | inr (mid, m) ↦
        ground (arith, has-insert_all g h u vs mid next, has-insert_member g v h u ms mid)
  ]

  -- The new list, and in other groups what was there.
  pub has-set_members :
      (g h u : ℕ) (vs : List ℕ) (ms next : Members)
      → set_members is_user g vs ms ≡ some next
      → has h u next ≡ (if eqb h g then contains u vs else has h u ms)
  unfolding set_members
  has-set_members g h u vs ms next e =
      ground (arith, has-insert_all g h u vs (clear g ms) next e, has-clear g h u ms)

  -- A failure leaves other groups alone, and whom it does not name.
  pub has-add_members :
      (g h u : ℕ) (vs : List ℕ) (ms : Members)
      → (eqb h g && contains u vs) ≡ false
      → has h u (add_members is_user g vs ms).1 ≡ has h u ms
  unfolding add_members contains
  has-add_members g h u [] ms n = refl
  has-add_members g h u (v ∷ vs) ms n = elim (Option-cases (insert_member is_user g v ms)) [
    | inl e ↦ rw (e, add_members) refl
    | inr (mid, m) ↦
        rw (m, add_members)
          (ground (arith, has-add_members g h u vs mid, has-insert_member g v h u ms mid))
  ]

  -- Every member that is a user.
  pub contains-members_of :
      (g u : ℕ) (ms : Members)
      → is_user u ≡ true
      → contains u (members_of is_user g ms) ≡ has g u ms
  unfolding contains members_of has
  contains-members_of g u [] h = refl
  contains-members_of g u ((i, v) ∷ ms) h =
      ground (arith, contains-members_of g u ms h, eqb_iff g i, eqb_iff u v)
