-- ===== src/Base/Text.antt =====
-- Python's `str(n)` of a number, `s[:n]`, and `s.upper()` and `s.lower()` of a text in ASCII.
pub mod Decimal
use Prim.Native.Nat.{ℕ, zero, suc, ◌/◌, ◌%◌}
use Prim.Native.Char.{Char}
use Prim.Native.String.{String, ◌++◌}
use mathlib.Core.Path.{◌≡◌, refl}
use Prim.Native.Char.{code}
use mathlib.Core.Bool.{Bool, ◌&&◌, ◌||◌}
use tao_gateway.Base.Tests.{ltb, nat_beq, if◌then◌else◌}

abbrev pub digit_chars : String
digit_chars = "0123456789"

-- `s[n:n + 1]`
char_text : String → ℕ → String
char_text String.[] i = String.[]
char_text (String.◌∷◌ c s) zero = String.◌∷◌ c String.[]
char_text (String.◌∷◌ c s) (suc i) = char_text s i

-- The fuel is above the number of digits.
str_fuel : ℕ → ℕ → String
unfolding char_text
str_fuel zero n = char_text digit_chars (n % 10)
str_fuel (suc f) n =
    let rest = str_fuel f (n / 10) in
    if ltb n 10 then char_text digit_chars n else rest ++ char_text digit_chars (n % 10)

-- `str(n)`
unfoldable pub str : ℕ → String
unfolding str_fuel
str n = str_fuel n n

-- `s[:n]`, by characters.
unfoldable pub prefix : ℕ → String → String
prefix zero s = String.[]
prefix (suc n) String.[] = String.[]
prefix (suc n) (String.◌∷◌ c s) = String.◌∷◌ c (prefix n s)

upper_char : String → String → Char → Char
upper_char (String.◌∷◌ a l) (String.◌∷◌ b u) c =
    if nat_beq (code a) (code c) then b else upper_char l u c
upper_char _ _ c = c

-- `s.upper()`, for the letters of ASCII.
unfoldable pub upper : String → String
unfolding upper_char
upper String.[] = String.[]
upper (String.◌∷◌ c s) =
    String.◌∷◌ (upper_char "abcdefghijklmnopqrstuvwxyz" "ABCDEFGHIJKLMNOPQRSTUVWXYZ" c) (upper s)

-- `s.lower()`, for the letters of ASCII.
unfoldable pub lower : String → String
unfolding upper_char
lower String.[] = String.[]
lower (String.◌∷◌ c s) =
    String.◌∷◌ (upper_char "ABCDEFGHIJKLMNOPQRSTUVWXYZ" "abcdefghijklmnopqrstuvwxyz" c) (lower s)

str_runs : str 2592000 ≡ "2592000"
unfolding str
str_runs = refl

upper_runs : upper "sn32-detect" ≡ "SN32-DETECT"
unfolding upper
upper_runs = refl

prefix_runs : prefix 8 "5F3sa2TJAWMqDhXG" ≡ "5F3sa2TJ"
unfolding prefix
prefix_runs = refl

-- `s[n:]`, by characters.
unfoldable pub suffix : ℕ → String → String
suffix zero s = s
suffix (suc n) String.[] = String.[]
suffix (suc n) (String.◌∷◌ c s) = suffix n s

is_space : Char → Bool
is_space c = (ltb 8 (code c) && ltb (code c) 14) || (ltb 27 (code c) && ltb (code c) 33)

unfoldable pub lstrip : String → String
unfolding is_space
lstrip String.[] = String.[]
lstrip (String.◌∷◌ c s) = let rest = lstrip s in if is_space c then rest else String.◌∷◌ c s

-- A text behind a character, where nothing but spaces is dropped.
rstrip_cons : Char → String → String
unfolding is_space
rstrip_cons c String.[] = if is_space c then String.[] else String.◌∷◌ c String.[]
rstrip_cons c (String.◌∷◌ d s) = String.◌∷◌ c (String.◌∷◌ d s)

unfoldable pub rstrip : String → String
unfolding rstrip_cons
rstrip String.[] = String.[]
rstrip (String.◌∷◌ c s) = rstrip_cons c (rstrip s)

-- `s.strip()`, for the spaces of ASCII.
unfoldable pub strip : String → String
strip s = rstrip (lstrip s)

strip_runs : strip "  a b \t" ≡ "a b"
unfolding strip lstrip rstrip
strip_runs = refl
