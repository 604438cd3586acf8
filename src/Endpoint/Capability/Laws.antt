-- ===== src/Endpoint/Capability/Laws.antt =====
-- What the capability cache of src/endpoint/mod.rs answers after its updates, and what the seed
-- probe and the beta filter make of it.
use claude_code_aws_gateway.Prelude.{
  ℕ, ◌+◌, ◌≡◌, refl, ap, ◌∙◌, Bool, true, false, Option, none, some, List, [], ◌∷◌, arith, leb, All,
  Bool-cases, inl, inr, ◌⊎◌, ◌==◌, pair_eq, if◌then◌else◌,
}
use claude_code_aws_gateway.Prelude.Text.{Text, text_eq}
use claude_code_aws_gateway.Prelude.Assoc.{lookup, lookup-insert, lookup-remove}
use claude_code_aws_gateway.Endpoint.Capability.{
  ProbeSource, seed_probe, admin_override, is_admin, CapabilityEntry, Capabilities, capability_ttl,
  current, is_beta_supported, is_protected, mark, mark_supported, mark_unsupported,
  forget_capability, ProbeOutcome, supported, unsupported, inconclusive, apply_probe_outcome,
}

abbrev pub same_pair : Text → Text → Text → Text → Bool
same_pair p b q c = ◌==◌ {A = Text × Text} (p, b) (q, c)

current-if :
    (later : ℕ) (b : Bool) (e : CapabilityEntry) (o : Option CapabilityEntry)
    → current later (if b then some e else o)
      ≡ (if b then current later (some e) else current later o)
current-if later true e o = refl
current-if later false e o = refl

mark-lookup :
    (v : Bool) (now later : ℕ) (p b q c : Text) (source : ProbeSource) (m : Capabilities)
    → is_beta_supported later q c (mark v now p b source m) ≡ (
        if is_protected (lookup (p, b) m) source
        then is_beta_supported later q c m
        else if same_pair p b q c
        then current later (some (record { supported = v; learned_at = now; source = source }))
        else is_beta_supported later q c m)
unfolding is_beta_supported
mark-lookup v now later p b q c source m =
    elim (Bool-cases (is_protected (lookup (p, b) m) source)) [
      | inl h ↦ rw h
      | inr h ↦ rw h (
          ap (current later) (lookup-insert (p, b) (q, c) _ m)
          ∙ current-if later (same_pair p b q c) _ (lookup (q, c) m))
    ]

-- After a mark of the pair (p, b), where no admin override protects it: the pair is answered with
-- the marked value, for ever if the mark is an admin override and for 24 hours otherwise; every
-- other pair is answered as before. Where an override protects the pair, nothing changes.
pub mark_answers :
    (v : Bool) (now later : ℕ) (p b q c : Text) (source : ProbeSource) (m : Capabilities)
    → let m' = (if v then mark_supported now p b source m else mark_unsupported now p b source m) in
      is_beta_supported later q c m' ≡ (
        if is_protected (lookup (p, b) m) source
        then is_beta_supported later q c m
        else if same_pair p b q c
        then (if is_admin source
            then some v
            else if leb (now + capability_ttl) later
            then none
            else some v)
        else is_beta_supported later q c m)
unfolding mark_supported mark_unsupported
mark_answers true now later p b q c source m = mark-lookup true now later p b q c source m
mark_answers false now later p b q c source m = mark-lookup false now later p b q c source m

-- The updates of the cache.
pub data Change : Type 0 where
  marks : Bool → ℕ → Text → Text → ProbeSource → Change
  probes : ℕ → Text → Text → ProbeOutcome → Change
  forgets : Text → Text → Change

unfoldable pub change : Change → Capabilities → Capabilities
unfolding mark_supported mark_unsupported apply_probe_outcome forget_capability
change (marks v now p b source) m =
    if v then mark_supported now p b source m else mark_unsupported now p b source m
change (probes now p b outcome) m = apply_probe_outcome now p b outcome m
change (forgets p b) m = forget_capability p b m

unfoldable pub changes : List Change → Capabilities → Capabilities
unfolding change
changes [] m = m
changes (c ∷ cs) m = changes cs (change c m)

-- An update that no admin makes on the pair (p, b): it is automatic, or it is about another pair.
abbrev pub IsAutomatic : Text → Text → Change → Type 0
IsAutomatic p b (marks v now q c source) = (is_admin source ≡ false) ⊎ (same_pair q c p b ≡ false)
IsAutomatic p b (probes now q c outcome) = Unit
IsAutomatic p b (forgets q c) = same_pair q c p b ≡ false

protects :
    (o : Option CapabilityEntry) (e : CapabilityEntry) (source : ProbeSource)
    → o ≡ some e
    → is_admin e.source ≡ true
    → is_admin source ≡ false
    → is_protected o source ≡ true
protects o e source l h a = rw l (ground arith)

mark_keeps :
    (v : Bool) (now : ℕ) (p b q c : Text) (source : ProbeSource) (m : Capabilities)
    (e : CapabilityEntry)
    → (is_admin source ≡ false) ⊎ (same_pair q c p b ≡ false)
    → lookup (p, b) m ≡ some e
    → is_admin e.source ≡ true
    → lookup (p, b) (mark v now q c source m) ≡ some e
mark_keeps v now p b q c source m e a l h = elim (Bool-cases (same_pair q c p b)) [
  | inl same ↦
      let here : lookup (q, c) m ≡ some e =
        ap (λ (k : Text × Text). lookup k m) ((pair_eq.beq_iff (q, c) (p, b)).0 same) ∙ l in
      let automatic : is_admin source ≡ false = elim a [ inl n ↦ n | inr n ↦ ground arith ] in
      rw (protects (lookup (q, c) m) e source here h automatic) l
  | inr other ↦ elim (Bool-cases (is_protected (lookup (q, c) m) source)) [
    | inl t ↦ rw t l
    | inr t ↦ rw t (lookup-insert (q, c) (p, b) _ m ∙ rw other l)
  ]
]

change_keeps :
    (p b : Text) (c : Change) (m : Capabilities) (e : CapabilityEntry)
    → IsAutomatic p b c
    → lookup (p, b) m ≡ some e
    → is_admin e.source ≡ true
    → lookup (p, b) (change c m) ≡ some e
unfolding change
change_keeps p b (marks true now q c source) m e a l h =
    mark_keeps true now p b q c source m e a l h
change_keeps p b (marks false now q c source) m e a l h =
    mark_keeps false now p b q c source m e a l h
change_keeps p b (probes now q c supported) m e a l h =
    mark_keeps true now p b q c seed_probe m e (inl refl) l h
change_keeps p b (probes now q c unsupported) m e a l h =
    mark_keeps false now p b q c seed_probe m e (inl refl) l h
change_keeps p b (probes now q c inconclusive) m e a l h = l
change_keeps p b (forgets q c) m e a l h = lookup-remove (q, c) (p, b) m ∙ rw a l

changes_keep :
    (p b : Text) (cs : List Change) (m : Capabilities) (e : CapabilityEntry)
    → All (IsAutomatic p b) cs
    → lookup (p, b) m ≡ some e
    → is_admin e.source ≡ true
    → lookup (p, b) (changes cs m) ≡ some e
unfolding changes
changes_keep p b [] m e a l h = l
changes_keep p b (c ∷ cs) m e a l h =
    changes_keep p b cs (change c m) e a.1 (change_keeps p b c m e a.0 l h) h

admin_free : (o : Option CapabilityEntry) → is_protected o admin_override ≡ false
admin_free none = refl
admin_free (some e) = ground arith

override_there :
    (v : Bool) (now : ℕ) (p b : Text) (m : Capabilities)
    → lookup (p, b) (mark v now p b admin_override m)
      ≡ some (record { supported = v; learned_at = now; source = admin_override })
override_there v now p b m =
    rw (admin_free (lookup (p, b) m))
      (lookup-insert (p, b) (p, b) _ m ∙ rw ((pair_eq.beq_iff (p, b) (p, b)).1 refl))

-- An admin override of a pair outlives every automatic update and every change of other pairs, at
-- any later time: the answer stays its value, until an admin marks the pair or
-- the pair is forgotten.
pub override_sticks :
    (now later : ℕ) (v : Bool) (p b : Text) (cs : List Change) (m : Capabilities)
    → All (IsAutomatic p b) cs
    → let m' =
        (if v
          then mark_supported now p b admin_override m
          else mark_unsupported now p b admin_override m) in
      is_beta_supported later p b (changes cs m') ≡ some v
unfolding is_beta_supported mark_supported mark_unsupported
override_sticks now later true p b cs m a =
    ap (current later) (changes_keep p b cs _ _ a (override_there true now p b m) refl)
override_sticks now later false p b cs m a =
    ap (current later) (changes_keep p b cs _ _ a (override_there false now p b m) refl)
