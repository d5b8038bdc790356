-- ===== src/ApiKeys/Store.antt =====
-- The Redis commands on the cached verdicts. Redis is no part of the program: a store is a
-- parameter, with the documented effect of each command while no key expires.
use tao_gateway.Base.{ℕ, ◌<◌, ◌≡◌, String, Option, none, some, List, ◌==◌, string_eq, if◌then◌else◌}

-- A value: bytes that are no text, or the parts of a text between its colons.
pub data Cached : Type 0 where
  undecodable : Cached
  parts : List String → Cached

pub record KeyStore : Type 1 where
  pub State : Type 0
  -- GET, SET with EX, and DEL.
  pub get : String → State → Option Cached
  pub set : String → Cached → ℕ → State → State
  pub delete : String → State → State
  pub get-set :
      (k j : String) (v : Cached) (n : ℕ) (s : State)
      → 0 < n
      → get j (set k v n s) ≡ (if k == j then some v else get j s)
  pub get-delete :
      (k j : String) (s : State) → get j (delete k s) ≡ (if k == j then none else get j s)
