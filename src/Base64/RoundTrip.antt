-- ===== src/Base64/RoundTrip.antt =====
-- Decoding what was encoded.
use Prim.Native.Char.{Char}
use Prim.Native.String.{char_at}
use k8s_operator_hermes_agen.Common.{
  if◌then◌else◌, ℕ, zero, suc, ◌+◌, ◌*◌, ◌/◌, ◌%◌, ◌<◌, ◌≡◌, refl, Bool, true, false, not, eqb,
  Option, none, some, [], ◌∷◌, ◌++◌, ◌∙◌, ap, All, arith,
}
use k8s_operator_hermes_agen.Api.{Bytes}
use k8s_operator_hermes_agen.Base64.{
  symbol, encode, value, is_newline, is_end, strip, quantum, quanta, decode, one_byte, two_bytes,
  three_bytes,
}

tests :
    (encode (77 ∷ 97 ∷ 110 ∷ 33 ∷ []) ≡ "TWFuIQ==")
    × (decode "TWFu\nIQ==" ≡ some (77 ∷ 97 ∷ 110 ∷ 33 ∷ []))
    × (decode "TWF" ≡ none)
unfolding encode decode symbol
tests = (refl, refl, refl)

-- A test that is evaluated at each number under a bound.
everywhere : (ℕ → Bool) → ℕ → Bool
everywhere test zero = true
everywhere test (suc top) = if test top then everywhere test top else false

everywhere-at :
    (test : ℕ → Bool) (bound : ℕ)
    → everywhere test bound ≡ true
    → (n : ℕ) → n < bound
    → test n ≡ true
unfolding everywhere
everywhere-at test zero passed n below = absurd (omega arith)
everywhere-at test (suc top) passed n below =
    ground (arith, λ (h : everywhere test top ≡ true). everywhere-at test top h n)

abbrev reads_back : ℕ → Bool
reads_back n = elim (value (symbol n)) [ none ↦ false | some m ↦ eqb m n ]

symbol_table : everywhere reads_back 64 ≡ true
unfolding everywhere value symbol
symbol_table = refl

newline_table : everywhere (λ n. not (is_newline (symbol n))) 64 ≡ true
unfolding everywhere symbol
newline_table = refl

value-symbol : (n : ℕ) → n < 64 → value (symbol n) ≡ some n
value-symbol n h = let e = everywhere-at reads_back 64 symbol_table n h in ground arith

symbol_not_newline : (n : ℕ) → n < 64 → is_newline (symbol n) ≡ false
symbol_not_newline n h =
    let e = everywhere-at (λ n. not (is_newline (symbol n))) 64 newline_table n h in ground arith

abbrev pub IsBytes : Bytes → Type 0
IsBytes = All (λ b. b < 256)

strip-encode : (bs : Bytes) → IsBytes bs → strip (encode bs) ≡ encode bs
unfolding encode strip
strip-encode [] h = refl
strip-encode (a ∷ []) h =
    rw (symbol_not_newline (a / 4) (omega arith), symbol_not_newline (a % 4 * 16) (omega arith))
strip-encode (a ∷ b ∷ []) h = rw (
  symbol_not_newline (a / 4) (omega arith),
  symbol_not_newline (a % 4 * 16 + b / 16) (omega arith),
  symbol_not_newline (b % 16 * 4) (omega arith),
)
strip-encode (a ∷ b ∷ c ∷ rest) h = rw (
  symbol_not_newline (a / 4) (omega arith),
  symbol_not_newline (a % 4 * 16 + b / 16) (omega arith),
  symbol_not_newline (b % 16 * 4 + c / 64) (omega arith),
  symbol_not_newline (c % 64) (omega arith),
  strip-encode rest h.1.1.1,
)

-- The sextets of three bytes give the bytes back.
three_bytes_lem :
    (a b c : ℕ)
    → a < 256
    → b < 256
    → c < 256
    → three_bytes (a / 4) (a % 4 * 16 + b / 16) (b % 16 * 4 + c / 64) (c % 64) ≡ a ∷ b ∷ c ∷ []
three_bytes_lem a b c p q r = ground arith

value-pad : value (char_at "=" 0) ≡ none
unfolding value
value-pad = refl

abbrev pad : Char
pad = char_at "=" 0

module _ (p q : ℕ) (hp : p < 64) (hq : q < 64) where
  quantum-one_byte :
      (later : Option Bytes)
      → quantum (symbol p) (symbol q) pad pad true later ≡ some (one_byte p q)
  unfolding quantum
  quantum-one_byte later = ground (arith, value-symbol p, value-symbol q, value-pad)

  quantum-two_bytes :
      (r : ℕ)
      → r < 64
      → (later : Option Bytes)
      → quantum (symbol p) (symbol q) (symbol r) pad true later ≡ some (two_bytes p q r)
  unfolding quantum
  quantum-two_bytes r hr later =
      ground (arith, value-symbol p, value-symbol q, value-symbol r, value-pad)

  quantum-three_bytes :
      (r s : ℕ)
      → r < 64
      → s < 64
      → (ends : Bool) {later : Option Bytes} {bytes : Bytes} → later ≡ some bytes
      → quantum (symbol p) (symbol q) (symbol r) (symbol s) ends later
        ≡ some (three_bytes p q r s ++ bytes)
  unfolding quantum
  quantum-three_bytes r s hr hs ends decoded =
      ground (arith, value-symbol p, value-symbol q, value-symbol r, value-symbol s)

quanta-encode : (bs : Bytes) → IsBytes bs → quanta (encode bs) ≡ some bs
unfolding encode quanta
quanta-encode [] h = refl
quanta-encode (a ∷ []) h =
    quantum-one_byte (a / 4) (a % 4 * 16) (omega arith) (omega arith) (some []) ∙ ground arith
quanta-encode (a ∷ b ∷ []) h =
    quantum-two_bytes (a / 4) (a % 4 * 16 + b / 16) (omega arith) (omega arith) (b % 16 * 4)
      (omega arith) (some [])
    ∙ ground arith
quanta-encode (a ∷ b ∷ c ∷ rest) h =
    quantum-three_bytes (a / 4) (a % 4 * 16 + b / 16) (omega arith) (omega arith)
      (b % 16 * 4 + c / 64) (c % 64) (omega arith) (omega arith) (is_end (encode rest))
      (quanta-encode rest h.1.1.1)
    ∙ ap (λ bytes. some (bytes ++ rest)) (three_bytes_lem a b c h.0 h.1.0 h.1.1.0)

-- Decoding the base64 text of any bytes gives the bytes back.
pub decode-encode : (bs : Bytes) → IsBytes bs → decode (encode bs) ≡ some bs
unfolding decode
decode-encode bs h = rw (strip-encode bs h) (quanta-encode bs h)
