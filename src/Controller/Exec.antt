-- ===== src/Controller/Exec.antt =====
-- Errors, and actions on the API server that may fail. `S` is the state of the server and of all
-- that acts on it: an action may find it changed by others.
pub mod Keeps
use k8s_operator_hermes_agen.Common.{String, ◌<>◌, List, [], ◌∷◌, Result, ok, err}

-- persistentVolumeClaimSpecDriftError
pub record DriftError : Type 0 where
  pub name : String
  pub fields : List String
  pub remediation : String

-- What the code tells apart: a NotFound of the API server, the drift error, and the others.
pub data Error : Type 0 where
  not_found other : String → Error
  drifted : DriftError → Error

-- `strings.Join(elems, sep)`
unfoldable pub join_texts : String → List String → String
join_texts sep [] = ""
join_texts sep (x ∷ []) = x
join_texts sep (x ∷ y ∷ xs) = x <> sep <> join_texts sep (y ∷ xs)

-- `err.Error()`
unfoldable pub error_text : Error → String
unfolding join_texts
error_text (not_found e) = e
error_text (other e) = e
error_text (drifted d) =
    "PersistentVolumeClaim "
    <> d.name
    <> " must be recreated to apply immutable storage changes: "
    <> join_texts ", " d.fields
    <> ". "
    <> d.remediation

abbrev pub Exec : Type 0 → Type 0 → Type 0
Exec S A = S → Result Error A × S

module _ {S A : Type 0} where
  abbrev pub pure : A → Exec S A
  pure a s = (ok a, s)

  abbrev pub raise : Error → Exec S A
  raise e s = (err e, s)

  -- The result of a fallible computation without effects.
  abbrev pub lift : Result Error A → Exec S A
  lift r s = (r, s)

module _ {S A B : Type 0} where
  abbrev pub resume : (Error → Exec S B) → (A → Exec S B) → Result Error A → Exec S B
  resume failed rest (ok a) s = rest a s
  resume failed rest (err e) s = failed e s

  -- `a, err := m; if err != nil { failed }; rest`
  abbrev pub attempt : Exec S A → (Error → Exec S B) → (A → Exec S B) → Exec S B
  attempt m failed rest s = let (r, s') = m s in resume failed rest r s'

  infixl 5 ◌>>=◌ ◌>>◌
  abbrev pub ◌>>=◌ : Exec S A → (A → Exec S B) → Exec S B
  m >>= f = attempt m raise f

  abbrev pub ◌>>◌ : Exec S A → Exec S B → Exec S B
  m >> n = m >>= λ _. n
