-- ===== src/Usage/Content.antt =====
-- What a debug log stores is bounded.
use Prim.Native.String.{count}
use text.Mathlib.TextLemmas.{length-nil, length-cons, length-append}
use tao_gateway.Base.{
  ℕ, zero, suc, ◌+◌, ◌≤◌, ◌<◌, ◌≡◌, refl, String, str_append, Option, none, some, arith, leb,
  prefix, Bool-cases, ◌⊎◌, inl, inr,
}
use tao_gateway.Usage.{truncate_content, truncation_note}

count-prefix : (n : ℕ) (s : String) → n ≤ count s → count (prefix n s) ≡ n
unfolding prefix
count-prefix zero s h = length-nil
count-prefix (suc n) String.[] h = absurd (omega (arith, length-nil))
count-prefix (suc n) (String.◌∷◌ c s) h =
    omega (arith, count-prefix n s (omega (arith, length-cons c s)), length-cons c (prefix n s))

-- The texts that a debug log may hold: nothing for nothing, the redacted content where it has at
-- most the limit, and else its first characters and the note, of 24 characters.
abbrev pub IsStored : (String → String) → Option String → Option String → Type 0
IsStored redact none stored = stored ≡ none
IsStored redact (some content) stored =
    (t : String) × (stored ≡ some t)
    × (count t ≤ 65536 + 24)
    × ((t ≡ redact content) ⊎ (65536 < count (redact content)))

-- A body that is stored has at most 65,536 characters and the note
-- of 24, it is the redacted body itself where that has at most 65,536 characters, and no body is
-- stored for none.
pub truncate_content-IsStored :
    (redact : String → String) (content : Option String)
    → IsStored redact content (truncate_content redact content)
unfolding truncate_content
truncate_content-IsStored redact none = refl
truncate_content-IsStored redact (some content) =
    elim (Bool-cases (leb (count (redact content)) 65536)) [
      | inl h ↦ rw h (redact content, refl, ground arith, inl refl)
      | inr h ↦ rw h (
        str_append (prefix 65536 (redact content)) truncation_note,
        refl,
        omega (
          arith,
          length-append (prefix 65536 (redact content)) truncation_note,
          count-prefix 65536 (redact content) (ground arith),
          note,
        ),
        inr (ground arith),
      )
    ]
  where
    note : count truncation_note ≡ 24
    note = refl
