-- ===== src/Console.antt =====
-- The tokens of a console line: the helpers of src/cmdline.c on top of `strsep`, `strtol` and
-- `strtoul` of the C library, with a `long` of 64 bits. A string is the list of its characters
-- without the terminator, and a null pointer is `none`. What is logged is left out.
pub mod Parse
pub mod Message
pub mod Commands
pub mod Links
pub mod Notify
pub mod Tags
pub mod Refusals
pub mod Run
pub mod Ranges
pub mod Safe
pub mod Invariant
pub mod RecordText
pub mod ReadBack
pub mod BuildLaws
pub mod Printing
use e2f77dee9c9d8e2bfbcafc.Base.{
  ℕ, ◌+◌, ◌-◌, ◌*◌, ◌%◌, ◌^◌, Bool, true, false, not, ◌&&◌, ◌||◌, Option, none, some, List, [], ◌∷◌,
  ltb, leb, ◌==◌, if◌then◌else◌,
}
use Prim.Native.Char.{code}
use Prim.Native.String.{String}

-- The characters of a text.
abbrev pub codes : String → List ℕ
codes String.[] = []
codes (String.◌∷◌ c s) = code c ∷ codes s

-- `args`: what is left of the line.
abbrev pub Args : Type 0
Args = Option (List ℕ)

-- `none` is the result -1.
infixl 5 ◌>>=◌
abbrev pub ◌>>=◌ {ℓ κ} : {A : Type ℓ} {B : Type κ} → Option A → (A → Option B) → Option B
none >>= f = none
some a >>= f = f a

infixl 5 ◌>>◌
abbrev pub ◌>>◌ {ℓ} : {B : Type ℓ} → Option (Unit {0}) → Option B → Option B
m >> n = m >>= λ _. n

abbrev pub guard : Bool → Option (Unit {0})
guard true = some tt
guard false = none

-- The token in front of the first delimiter, and what stands behind that one.
unfoldable pub split : (ℕ → Bool) → List ℕ → List ℕ × Args
split delim [] = ([], none)
split delim (c ∷ cs) =
    let (token, rest) = split delim cs in if delim c then ([], some cs) else (c ∷ token, rest)

unfoldable pub strsep : (ℕ → Bool) → Args → Args × Args
unfolding split
strsep delim none = (none, none)
strsep delim (some line) = let (token, rest) = split delim line in (some token, rest)

abbrev pub blank : ℕ → Bool
blank c = c == 0x20

-- `" ,"`
abbrev pub blank_or_comma : ℕ → Bool
blank_or_comma c = c == 0x20 || c == 0x2c

unfoldable pub is_space : ℕ → Bool
is_space c = c == 0x20 || (leb 0x09 c && leb c 0x0d)

unfoldable pub skip_space : List ℕ → List ℕ
unfolding is_space
skip_space [] = []
skip_space (c ∷ cs) = let rest = skip_space cs in if is_space c then rest else c ∷ cs

-- The value of a digit; 36 for any other character.
unfoldable pub digit : ℕ → ℕ
digit c =
    if leb 0x30 c && leb c 0x39
    then c - 0x30
    else (if leb 0x61 c && leb c 0x7a
        then c - 0x61 + 10
        else (if leb 0x41 c && leb c 0x5a then c - 0x41 + 10 else 36))

-- The leading digits in a base, as a number of any size.
unfoldable pub number : ℕ → ℕ → List ℕ → ℕ
unfolding digit
number base acc [] = acc
number base acc (c ∷ cs) =
    let more = number base (acc * base + digit c) cs in if ltb (digit c) base then more else acc

-- Base 0: the prefix decides.
unfoldable pub magnitude : List ℕ → ℕ
unfolding number
magnitude (c ∷ x ∷ cs) =
    if c == 0x30
    then (if x == 0x78 || x == 0x58 then number 16 0 cs else number 8 0 (x ∷ cs))
    else number 10 0 (c ∷ x ∷ cs)
magnitude (c ∷ []) = number 10 0 (c ∷ [])
magnitude [] = 0

-- The sign, and the number behind it.
unfoldable pub by_sign : List ℕ → Bool × ℕ
unfolding magnitude
by_sign [] = (false, 0)
by_sign (c ∷ cs) =
    if c == 0x2d
    then (true, magnitude cs)
    else (if c == 0x2b then (false, magnitude cs) else (false, magnitude (c ∷ cs)))

unfoldable pub signed : List ℕ → Bool × ℕ
unfolding skip_space by_sign
signed token = by_sign (skip_space token)

-- `negsuc n` is -(n + 1).
pub data ℤ : Type 0 where
  pos : ℕ → ℤ
  negsuc : ℕ → ℤ

-- `none` where `errno` is set to ERANGE.
unfoldable pub strtol : List ℕ → Option ℤ
unfolding signed
strtol token =
    let (negative, n) = signed token in
    if negative
    then (if leb n (2 ^ 63) then some (if n == 0 then pos 0 else negsuc (n - 1)) else none)
    else (if ltb n (2 ^ 63) then some (pos n) else none)

-- A sign negates modulo 2^64.
unfoldable pub strtoul : List ℕ → Option ℕ
unfolding signed
strtoul token =
    let (negative, n) = signed token in
    if ltb n (2 ^ 64) then some (if negative then (2 ^ 64 - n) % 2 ^ 64 else n) else none

-- Each of these leaves the value and the rest of the line.
unfoldable pub lex_token : (ℕ → Bool) → Args → Option (List ℕ × Args)
unfolding strsep
lex_token delim args = let (token, rest) = strsep delim args in do t ← token; some (t, rest)

unfoldable pub parse_token_l : (ℕ → Bool) → Args → Option (ℤ × Args)
unfolding lex_token strtol
parse_token_l delim args = do
  (token, rest) ← lex_token delim args
  val ← strtol token
  some (val, rest)

unfoldable pub parse_token_ul : (ℕ → Bool) → Args → Option (ℕ × Args)
unfolding lex_token strtoul
parse_token_ul delim args = do
  (token, rest) ← lex_token delim args
  val ← strtoul token
  some (val, rest)

unfoldable pub is_empty : List ℕ → Bool
is_empty [] = true
is_empty (c ∷ cs) = false

unfoldable pub parse_token_s : (ℕ → Bool) → Args → Bool → Option (List ℕ × Args)
unfolding lex_token is_empty
parse_token_s delim args allow_empty = do
  (token, rest) ← lex_token delim args
  guard (allow_empty || not (is_empty token))
  some (token, rest)
