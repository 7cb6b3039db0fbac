-- ===== src/GoPath.antt =====
-- Go's package path, on slash-separated text: what the operator uses of it (IsAbs, Clean, Join).
pub mod Segments
pub mod Split
pub mod Resolve
use Prim.Native.Char.{Char, code}
use Prim.Native.String
use k8s_operator_hermes_agen.Common.{
  String, ◌==◌, ◌<>◌, eqb, Bool, true, false, ◌||◌, List, [], ◌∷◌, if◌then◌else◌,
}
use mathlib.Core.List.{reverse}

abbrev pub is_slash : Char → Bool
is_slash c = eqb (code c) b'/'

-- `path.IsAbs(p)`, which is `len(p) > 0 && p[0] == '/'`
unfoldable pub is_abs : String → Bool
is_abs String.[] = false
is_abs (String.◌∷◌ c s) = is_slash c

-- Puts a character in front of the first segment.
abbrev pub push_first : Char → List String → List String
push_first c [] = String.◌∷◌ c String.[] ∷ []
push_first c (x ∷ xs) = String.◌∷◌ c x ∷ xs

-- The segments between slashes, empty ones too.
unfoldable pub split_slash : String → List String
split_slash String.[] = "" ∷ []
split_slash (String.◌∷◌ c s) =
    let rest = split_slash s in if is_slash c then "" ∷ rest else push_first c rest

unfoldable pub join_slash : List String → String
join_slash [] = ""
join_slash (x ∷ []) = x
join_slash (x ∷ y ∷ xs) = x <> "/" <> join_slash (y ∷ xs)

-- A ".." drops the last real segment. With none to drop it stays, but is dropped itself at the root.
unfoldable pub back : Bool → List String → List String
back rooted [] = if rooted then [] else ".." ∷ []
back rooted (top ∷ stack) = if top == ".." then ".." ∷ top ∷ stack else stack

-- One segment; the stack has the last kept segment at its head.
unfoldable pub resolve : Bool → List String → String → List String
unfolding back
resolve rooted stack seg =
    if seg == "" || seg == "."
    then stack
    else if seg == ".."
    then back rooted stack
    else seg ∷ stack

unfoldable pub resolve_all : Bool → List String → List String → List String
unfolding resolve
resolve_all rooted stack [] = stack
resolve_all rooted stack (seg ∷ segs) = resolve_all rooted (resolve rooted stack seg) segs

-- `path.Clean(p)`
unfoldable pub clean : String → String
unfolding is_abs split_slash join_slash resolve_all
clean p =
    let out = join_slash (reverse (resolve_all (is_abs p) [] (split_slash p))) in
    if p == "" then "." else if is_abs p then "/" <> out else if out == "" then "." else out

-- `path.Join(dir, p)` with `dir` not empty
unfoldable pub join : String → String → String
unfolding clean
join dir p = clean (dir <> "/" <> p)
