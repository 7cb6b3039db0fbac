-- ===== src/Webhook/Fields.antt =====
-- Field errors (field.Error of k8s.io/apimachinery): the kind, the path and the detail. The rejected
-- value, which the API server only prints, is left out.
use k8s_operator_hermes_agen.Common.{
  ℕ, String, Bool, true, false, Option, none, some, List, [], ◌∷◌, ◌++◌,
}

pub data PathElement : Type 0 where
  child : String → PathElement
  index : ℕ → PathElement

abbrev pub FieldPath : Type 0
FieldPath = List PathElement

-- `path.Child(name)`, `path.Index(i)`
infixl 70 ◌⟩◌ ◌at◌
abbrev pub ◌⟩◌ : FieldPath → String → FieldPath
p ⟩ name = p ++ (child name ∷ [])

abbrev pub ◌at◌ : FieldPath → ℕ → FieldPath
p at i = p ++ (index i ∷ [])

pub data FieldError : Type 0 where
  required invalid : FieldPath → String → FieldError

-- field.ErrorList
abbrev pub ErrorList : Type 0
ErrorList = List FieldError

-- `if bad { allErrs = append(allErrs, e) }`
abbrev pub error_if : Bool → FieldError → ErrorList
error_if true e = e ∷ []
error_if false e = []

-- `if ref != nil { … }`
abbrev pub when_set {ℓ} : {A : Type ℓ} → Option A → (A → ErrorList) → ErrorList
when_set none check = []
when_set (some a) check = check a
