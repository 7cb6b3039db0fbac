-- ===== src/Snapshots/Projections.antt =====
-- The snapshot of projected keys, and the messages on what it lacks.
use k8s_operator_hermes_agen.Common.{
  ◌≡◌, refl, sym, ap, ◌∙◌, String, Bool, true, false, ◌&&◌, ◌||◌, or_else, Option, none, some, List,
  [], ◌∷◌, ◌++◌, is_empty, lookup, insert, all, Option-cases, inl, inr,
}
use k8s_operator_hermes_agen.Api.{Bytes, FileProjectionItem, ConfigMapContents, SecretContents}
use k8s_operator_hermes_agen.FileMounts.{is_set}
use k8s_operator_hermes_agen.Snapshots.{
  Snapshot, blank, encoded, project_items, config_map_file_value,
  new_config_map_projection_snapshot, secret_file_value, new_secret_projection_snapshot,
}
use k8s_operator_hermes_agen.Controller.Inputs.{snapshot_messages}

-- A snapshot of a required object that was found, before the loop or within it.
abbrev Open : Snapshot → Type 0
Open s =
    (s.present ≡ true)
    × (s.optional ≡ false)
    × (s.key ≡ "")
    × (s.key_found ≡ is_empty s.missing_keys)

messages-missing :
    (s : Snapshot) (missing : List String)
    → s.missing_keys ≡ missing
    → Open s
    → is_empty (snapshot_messages s) ≡ is_empty missing
unfolding snapshot_messages
messages-missing s [] e (there, required, whole, found) =
    let all_found : s.key_found ≡ true = found ∙ ap is_empty e in rw (required, there, all_found)
messages-missing s (k ∷ ks) e (there, required, whole, found) =
    let some_missing : s.key_found ≡ false = found ∙ ap is_empty e in
    rw (required, there, some_missing, whole, e)

and-true : (b : Bool) → b ≡ (b && true)
and-true true = refl
and-true false = refl

is_empty-snoc : (xs : List String) (x : String) → is_empty (xs ++ (x ∷ [])) ≡ false
is_empty-snoc [] x = refl
is_empty-snoc (y ∷ ys) x = refl

and-false : (b : Bool) → false ≡ (b && false)
and-false true = refl
and-false false = refl

project_items-messages :
    (items : List FileProjectionItem) (read : String → Option String) (s : Snapshot)
    → Open s
    → is_empty (snapshot_messages (project_items read s items))
      ≡ (is_empty s.missing_keys && all (λ (i : FileProjectionItem). is_set (read i.key)) items)
unfolding project_items
project_items-messages [] read s o =
    messages-missing s s.missing_keys refl o ∙ and-true (is_empty s.missing_keys)
project_items-messages (i ∷ is) read s (there, required, whole, found) =
    elim (Option-cases (read i.key)) [
      | inl absent ↦
          let s' : Snapshot = record s {
            key_found = false;
            missing_keys = s.missing_keys ++ (i.key ∷ []);
          } in
          let lacks = is_empty-snoc s.missing_keys i.key in
          rw (absent) (
            project_items-messages is read s' (there, required, whole, sym lacks)
            ∙ rw (lacks) (and-false (is_empty s.missing_keys)))
      | inr (v, present) ↦
          let s' : Snapshot = record s { contents = insert i.key v s.contents } in
          rw (present) (project_items-messages is read s' (there, required, whole, found))
    ]

all-equal :
    (f g : FileProjectionItem → Bool) (items : List FileProjectionItem)
    → ((i : FileProjectionItem) → f i ≡ g i)
    → all f items ≡ all g items
all-equal f g [] same = refl
all-equal f g (i ∷ is) same = rw (same i, all-equal f g is same)

is_set-encoded : (o : Option Bytes) → is_set (encoded o) ≡ is_set o
is_set-encoded none = refl
is_set-encoded (some b) = refl

is_set-or_else :
    (o : Option String) (b : Option Bytes) → is_set (or_else o (encoded b)) ≡ (is_set o || is_set b)
is_set-or_else none b = is_set-encoded b
is_set-or_else (some v) b = refl

config_map_projection-messages :
    (name : String) (item : FileProjectionItem) (items : List FileProjectionItem)
    (m : ConfigMapContents)
    → is_empty (snapshot_messages (new_config_map_projection_snapshot name (item ∷ items) (some m)))
      ≡ all
          (λ (i : FileProjectionItem).
            is_set (lookup i.key m.text) || is_set (lookup i.key m.binary))
          (item ∷ items)
unfolding new_config_map_projection_snapshot config_map_file_value
config_map_projection-messages name item items m =
    project_items-messages (item ∷ items) (config_map_file_value m)
      (record (blank "ConfigMap" name "" false true) { key_found = true }) (refl, refl, refl, refl)
    ∙ all-equal _ _ (item ∷ items)
        (λ i. is_set-or_else (lookup i.key m.text) (lookup i.key m.binary))

secret_projection-messages :
    (name : String) (item : FileProjectionItem) (items : List FileProjectionItem)
    (s : SecretContents)
    → is_empty (snapshot_messages (new_secret_projection_snapshot name (item ∷ items) (some s)))
      ≡ all (λ (i : FileProjectionItem). is_set (lookup i.key s.binary)) (item ∷ items)
unfolding new_secret_projection_snapshot secret_file_value
secret_projection-messages name item items s =
    project_items-messages (item ∷ items) (secret_file_value s)
      (record (blank "Secret" name "" false true) { key_found = true }) (refl, refl, refl, refl)
    ∙ all-equal _ _ (item ∷ items) (λ i. is_set-encoded (lookup i.key s.binary))

-- A file mount with items lacks nothing of a ConfigMap that was found exactly if each item's key has a
-- value in its data or binary data, and nothing of a Secret that was found exactly if each item's key
-- has a value in its data.
pub projection-messages :
    (name : String) (item : FileProjectionItem) (items : List FileProjectionItem)
    (m : ConfigMapContents) (s : SecretContents)
    → (is_empty
          (snapshot_messages (new_config_map_projection_snapshot name (item ∷ items) (some m)))
        ≡ all
            (λ (i : FileProjectionItem).
              is_set (lookup i.key m.text) || is_set (lookup i.key m.binary))
            (item ∷ items))
      × (is_empty (snapshot_messages (new_secret_projection_snapshot name (item ∷ items) (some s)))
          ≡ all (λ (i : FileProjectionItem). is_set (lookup i.key s.binary)) (item ∷ items))
projection-messages name item items m s =
    (config_map_projection-messages name item items m, secret_projection-messages name item items s)
