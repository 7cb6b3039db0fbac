-- ===== src/Base64.antt =====
-- Go's encoding/base64 (`StdEncoding`) and the bytes of a text: how the operator copies Secret data
-- and binary ConfigMap data into its snapshots, and reads it back.
pub mod RoundTrip
use Prim.Native.Char.{Char, code}
use Prim.Native.String
use Prim.Native.String.{char_at}
use k8s_operator_hermes_agen.Common.{
  ℕ, ◌+◌, ◌-◌, ◌*◌, ◌/◌, ◌%◌, String, Bool, ◌&&◌, ◌||◌, ltb, leb, eqb, Option, none, some, List, [],
  ◌∷◌, ◌++◌, if◌then◌else◌,
}
use k8s_operator_hermes_agen.Api.{Bytes}

infixl 5 ◌>>=◌
abbrev ◌>>=◌ {ℓ κ} : {A : Type ℓ} {B : Type κ} → Option A → (A → Option B) → Option B
none >>= k = none
some a >>= k = k a

infixr 67 ◌▹◌
abbrev pub ◌▹◌ : Char → String → String
c ▹ s = String.◌∷◌ c s

-- The character for a value below 64.
unfoldable pub symbol : ℕ → Char
symbol n = char_at "ABCDEFGHIJKLMNOPQRSTUVWXYZabcdefghijklmnopqrstuvwxyz0123456789+/" n

-- `EncodeToString`
unfoldable pub encode : Bytes → String
encode [] = ""
encode (a ∷ []) = symbol (a / 4) ▹ symbol (a % 4 * 16) ▹ "=="
encode (a ∷ b ∷ []) = symbol (a / 4) ▹ symbol (a % 4 * 16 + b / 16) ▹ symbol (b % 16 * 4) ▹ "="
encode (a ∷ b ∷ c ∷ rest) =
    symbol (a / 4)
    ▹ symbol (a % 4 * 16 + b / 16)
    ▹ symbol (b % 16 * 4 + c / 64)
    ▹ symbol (c % 64)
    ▹ encode rest

-- The value of a character of the alphabet.
unfoldable pub value : Char → Option ℕ
value c =
    let k = code c in
    if leb b'A' k && leb k b'Z'
    then some (k - b'A')
    else if leb b'a' k && leb k b'z'
    then some (k - b'a' + 26)
    else if leb b'0' k && leb k b'9'
    then some (k - b'0' + 52)
    else if eqb k b'+'
    then some 62
    else if eqb k b'/'
    then some 63
    else none

abbrev is_newline : Char → Bool
is_newline c = eqb (code c) 10 || eqb (code c) 13

-- Newlines are skipped wherever they stand.
strip : String → String
strip String.[] = String.[]
strip (String.◌∷◌ c s) = let rest = strip s in if is_newline c then rest else c ▹ rest

abbrev is_pad : Char → Bool
is_pad c = eqb (code c) b'='

abbrev is_end : String → Bool
is_end String.[] = Bool.true
is_end (String.◌∷◌ c s) = Bool.false

-- The last quantum, padded by "==" or by "=".
abbrev one_byte : ℕ → ℕ → Bytes
one_byte p q = (p * 4 + q / 16) ∷ []

abbrev two_bytes : ℕ → ℕ → ℕ → Bytes
two_bytes p q r = (p * 4 + q / 16) ∷ (q % 16 * 16 + r / 4) ∷ []

abbrev three_bytes : ℕ → ℕ → ℕ → ℕ → Bytes
three_bytes p q r s = (p * 4 + q / 16) ∷ (q % 16 * 16 + r / 4) ∷ (r % 4 * 64 + s) ∷ []

-- Four characters, with whether the text ends behind them and what the rest decodes to.
quantum : Char → Char → Char → Char → Bool → Option Bytes → Option Bytes
quantum c d e f ends later = do
  p ← value c
  q ← value d
  elim (value e) [
    | none ↦ if is_pad e && is_pad f && ends then some (one_byte p q) else none
    | some r ↦ elim (value f) [
      | none ↦ if is_pad f && ends then some (two_bytes p q r) else none
      | some s ↦ do bytes ← later; some (three_bytes p q r s ++ bytes)
    ]
  ]

-- Quanta of four characters; `none` is a CorruptInputError.
quanta : String → Option Bytes
unfolding quantum value
quanta String.[] = some []
quanta (String.◌∷◌ c (String.◌∷◌ d (String.◌∷◌ e (String.◌∷◌ f rest)))) =
    quantum c d e f (is_end rest) (quanta rest)
quanta other = none

-- `DecodeString`
unfoldable pub decode : String → Option Bytes
unfolding strip quanta
decode s = quanta (strip s)

-- The UTF-8 bytes of one code point.
abbrev utf8_char : ℕ → Bytes
utf8_char k =
    if ltb k 128
    then k ∷ []
    else if ltb k 2048
    then (192 + k / 64) ∷ (128 + k % 64) ∷ []
    else if ltb k 65536
    then (224 + k / 4096) ∷ (128 + k / 64 % 64) ∷ (128 + k % 64) ∷ []
    else (240 + k / 262144) ∷ (128 + k / 4096 % 64) ∷ (128 + k / 64 % 64) ∷ (128 + k % 64) ∷ []

-- `[]byte(s)`
unfoldable pub utf8 : String → Bytes
utf8 String.[] = []
utf8 (String.◌∷◌ c s) = utf8_char (code c) ++ utf8 s
