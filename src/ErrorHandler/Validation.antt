-- ===== src/ErrorHandler/Validation.antt =====
-- The name of a field in a validation error.
use tao_gateway.Base.{◌≡◌, refl, ap, true, false, not, List, [], ◌∷◌, All, keep, map}
use tao_gateway.ErrorHandler.{Segment, is_source, shown, named, field}

keep-All :
    (loc : List Segment)
    → All (λ s. is_source s ≡ false) loc
    → keep (λ s. not (is_source s)) loc ≡ loc
keep-All [] h = refl
keep-All (s ∷ loc) h = rw h.0 (ap (λ l. s ∷ l) (keep-All loc h.1))

-- Where the first segment of a location names the source of the parameter and no other is spelled
-- like one, the field is the dotted path of the others, or "unknown" if there is none.
pub field_lem :
    (source : Segment) (loc : List Segment)
    → is_source source ≡ true
    → All (λ s. is_source s ≡ false) loc
    → field (source ∷ loc) ≡ named (map shown loc)
unfolding field
field_lem source loc h a = rw (h, keep-All loc a) refl
