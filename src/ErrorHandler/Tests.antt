-- ===== src/ErrorHandler/Tests.antt =====
-- The responses at concrete exceptions.
use tao_gateway.Base.{◌≡◌, refl, [], ◌∷◌, string_eq}
use tao_gateway.ErrorHandler.{field, name}

-- The field `query` of a search request is taken for a source.
field_query : field (name "body" ∷ name "query" ∷ []) ≡ "unknown"
unfolding field
field_query = refl
