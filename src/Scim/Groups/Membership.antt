-- ===== src/Scim/Groups/Membership.antt =====
-- The rows of `scim_group_members`, each a group and a user, and the statements of
-- src/db/scim_groups.rs on them. A user of a row must exist; that is the argument `is_user`.
pub mod Laws
use claude_code_aws_gateway.Prelude.{
  ℕ, Bool, true, false, not, ◌&&◌, ◌||◌, ◌≡◌, refl, Option, none, some, List, [], ◌∷◌, ◌++◌, eqb,
  eqb_iff, inl, inr, arith, Bool-cases, if◌then◌else◌,
}

abbrev pub Members : Type 0
Members = List (ℕ × ℕ)

-- Whether the row is there.
unfoldable pub has : ℕ → ℕ → Members → Bool
has g u [] = false
has g u ((h, v) ∷ ms) = eqb g h && eqb u v || has g u ms

unfoldable pub contains : ℕ → List ℕ → Bool
contains u [] = false
contains u (v ∷ vs) = eqb u v || contains u vs

-- A user is noted once.
unfoldable pub track : ℕ → List ℕ → List ℕ
unfolding contains
track u us = if contains u us then us else us ++ u ∷ []

unfoldable pub track_all : List ℕ → List ℕ → List ℕ
unfolding track
track_all [] us = us
track_all (v ∷ vs) us = track_all vs (track v us)

-- `DELETE … WHERE group_id = g`
unfoldable pub clear : ℕ → Members → Members
clear g [] = []
clear g ((h, v) ∷ ms) = let rest = clear g ms in if eqb g h then rest else (h, v) ∷ rest

unfoldable pub remove_member : ℕ → ℕ → Members → Members
remove_member g u [] = []
remove_member g u ((h, v) ∷ ms) =
    let rest = remove_member g u ms in if eqb g h && eqb u v then rest else (h, v) ∷ rest

module _ (is_user : ℕ → Bool) where
  -- `INSERT … ON CONFLICT DO NOTHING`, which fails for a user that does not exist.
  unfoldable pub insert_member : ℕ → ℕ → Members → Option Members
  unfolding has
  insert_member g u ms =
      if has g u ms then some ms else if is_user u then some ((g, u) ∷ ms) else none

  unfoldable pub insert_all : ℕ → List ℕ → Members → Option Members
  unfolding insert_member
  insert_all g [] ms = some ms
  insert_all g (u ∷ us) ms = elim (insert_member g u ms) [
    | none ↦ none
    | some next ↦ insert_all g us next
  ]

  -- A transaction: nothing is changed when it fails.
  unfoldable pub set_members : ℕ → List ℕ → Members → Option Members
  unfolding insert_all clear
  set_members g us ms = insert_all g us (clear g ms)

  -- One statement for each user: what was inserted before a failure stays, and the answer tells
  -- whether all succeeded.
  unfoldable pub add_members : ℕ → List ℕ → Members → Bool × Members
  unfolding insert_member
  add_members g [] ms = (true, ms)
  add_members g (u ∷ us) ms = elim (insert_member g u ms) [
    | none ↦ (false, ms)
    | some next ↦ add_members g us next
  ]

  -- The members that the join with the users gives.
  unfoldable pub members_of : ℕ → Members → List ℕ
  members_of g [] = []
  members_of g ((h, v) ∷ ms) =
      let rest = members_of g ms in if eqb g h && is_user v then v ∷ rest else rest
