-- ===== src/Tools/Registered.antt =====
-- What a registration of henk/tools/base.py accepts, and what the registry holds after it.
use henk.Base.{
  ◌<◌, ◌≡◌, ◌≢◌, true, none, some, [], ◌∷◌, ◌++◌, Text, text_eq, text_eq_refl, if◌then◌else◌,
  length, arith, inl, inr, Bool-cases, Option-cases,
}
use henk.Store.Content.{strip}
use henk.Tools.{
  Tool, is_mutating, Registry, Registration, register, declaration_error, has_name, registry_name,
  lookup_tool,
}

-- What the permission model needs of a mutating tool.
pub record IsDeclared (tool : Tool) : Type 0 where
  pub classified : tool.tool_class ≢ none
  pub tiered : is_mutating tool.tool_class ≡ true → tool.authorization ≢ none
  pub scoped : is_mutating tool.tool_class ≡ true → 0 < length tool.turn_scope
  pub labelled : is_mutating tool.tool_class ≡ true → 0 < length (strip tool.label)

declared : (tool : Tool) → declaration_error tool ≡ none → IsDeclared tool
unfolding declaration_error
declared tool h = record {
  classified = λ e. ground arith;
  tiered = λ m e. ground arith;
  scoped = λ m. ground arith;
  labelled = λ m. ground arith;
}

lookup-append :
    (n m : Text) (t : Tool) (r : Registry)
    → lookup_tool n (r ++ (m, t) ∷ [])
      ≡ (if has_name n r then lookup_tool n r else if text_eq n m then some t else none)
unfolding lookup_tool has_name
lookup-append n m t [] = ground arith
lookup-append n m t ((k, u) ∷ r) = elim (Bool-cases (text_eq n k)) [
  | inl e ↦ rw e
  | inr e ↦ rw (e, lookup-append n m t r)
]

abbrev pub Registers : Registration → Tool → Registry → Type 0
Registers (Registration.refused e) tool r = Unit
Registers (Registration.registered r') tool r =
    IsDeclared tool
    × (lookup_tool (registry_name tool) r' ≡ some tool)
    × ((n : Text) → has_name n r ≡ true → lookup_tool n r' ≡ lookup_tool n r)

-- Where `register` accepts a tool, the tool is classified and, if it mutates, has a tier, a scope
-- that is not empty and a label that is not blank; the registry then holds it under its name, and
-- holds what it held under every name that it had.
pub register-Registers : (tool : Tool) (r : Registry) → Registers (register tool r) tool r
unfolding register
register-Registers tool r = elim (Option-cases (declaration_error tool)) [
  | inr (x, e) ↦ rw (e, register) tt
  | inl e ↦ elim (Bool-cases (has_name (registry_name tool) r)) [
    | inl h ↦ rw (e, register, h) tt
    | inr h ↦
        rw (e, register, h)
          (
            declared tool e,
            rw (lookup-append (registry_name tool) (registry_name tool) tool r, h, text_eq_refl),
            λ n m. rw (lookup-append n (registry_name tool) tool r, m),
          )
  ]
]
