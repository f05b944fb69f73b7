-- ===== src/Tools.antt =====
-- The tool types and the classified registry of henk/tools/base.py. A field that the source checks
-- with `isinstance` is an `Option`, `none` where the value is not a member of the enumeration.
pub mod Registered
use henk.Base.{
  ℕ, Bool, true, false, ◌||◌, ◌&&◌, Option, none, some, List, [], ◌∷◌, ◌++◌, Text, text_eq, ◌==◌,
  if◌then◌else◌, length,
}
use henk.Store.Content.{strip}

pub data ToolClass : Type 0 where
  read_only notify_only mutating : ToolClass

pub data AuthorizationTier : Type 0 where
  standing per_instance : AuthorizationTier

pub data TurnType : Type 0 where
  owner event : TurnType

-- The declarations of a tool: `properties` are the names of its declared parameters.
pub record Tool : Type 0 where
  pub name : Text
  pub class_name : Text
  pub tool_class : Option ToolClass
  pub authorization : Option AuthorizationTier
  pub turn_scope : List TurnType
  pub raises_taint : Bool
  pub label : Text
  pub properties : List Text

abbrev pub same_turn : TurnType → TurnType → Bool
same_turn TurnType.owner TurnType.owner = true
same_turn TurnType.event TurnType.event = true
same_turn _ _ = false

-- `turn_type in scope`
unfoldable pub in_scope : TurnType → List TurnType → Bool
in_scope t [] = false
in_scope t (u ∷ us) = same_turn t u || in_scope t us

abbrev pub is_mutating : Option ToolClass → Bool
is_mutating (some ToolClass.mutating) = true
is_mutating _ = false

pub data RegistrationError : Type 0 where
  no_classification no_tier no_scope no_label duplicate_name : RegistrationError

-- The tools by name, in the order of registration.
abbrev pub Registry : Type 0
Registry = List (Text × Tool)

pub data Registration : Type 0 where
  registered : Registry → Registration
  refused : RegistrationError → Registration

unfoldable pub has_name : Text → Registry → Bool
has_name n [] = false
has_name n ((m, _) ∷ r) = text_eq n m || has_name n r

-- `getattr(tool, "name", "") or tool.__class__.__name__`
unfoldable pub registry_name : Tool → Text
registry_name tool = if length tool.name == 0 then tool.class_name else tool.name

-- The checks of a mutating tool, in the order of the source.
unfoldable pub mutating_error : Tool → Option RegistrationError
mutating_error tool = elim tool.authorization [
  | none ↦ some RegistrationError.no_tier
  | some _ ↦
      if length tool.turn_scope == 0
      then some RegistrationError.no_scope
      else if length (strip tool.label) == 0
      then some RegistrationError.no_label
      else none
]

unfoldable pub declaration_error : Tool → Option RegistrationError
unfolding mutating_error
declaration_error tool = elim tool.tool_class [
  | none ↦ some RegistrationError.no_classification
  | some ToolClass.mutating ↦ mutating_error tool
  | some _ ↦ none
]

unfoldable pub register : Tool → Registry → Registration
register tool r = elim (declaration_error tool) [
  | some e ↦ Registration.refused e
  | none ↦
      if has_name (registry_name tool) r
      then Registration.refused RegistrationError.duplicate_name
      else Registration.registered (r ++ (registry_name tool, tool) ∷ [])
]

-- `get`
unfoldable pub lookup_tool : Text → Registry → Option Tool
lookup_tool n [] = none
lookup_tool n ((m, t) ∷ r) = let rest = lookup_tool n r in if text_eq n m then some t else rest
