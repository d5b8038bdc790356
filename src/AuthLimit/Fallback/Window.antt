-- ===== src/AuthLimit/Fallback/Window.antt =====
-- How many requests of one key the fallback lets through in one window.
use tao_gateway.Base.{
  ℕ, suc, ◌+◌, ◌-◌, ◌≤◌, ◌<◌, ◌≡◌, inl, inr, String, true, false, none, some, List, [], ◌∷◌, arith,
  leb, length, All, string_eq, if◌then◌else◌, Bool-cases,
}
use Prim.Native.Nat.{min}
use tao_gateway.Base.Dict.{lookup, insert, lookup-insert_self}
use tao_gateway.AuthLimit.Fallback.{fallback_max_entries, Entries, evict, check}

-- The calls of `check` for one key at the given times: how many of them are allowed, and the entries
-- after the last.
unfoldable pub run : String → ℕ → ℕ → List ℕ → Entries → ℕ × Entries
run key limit window [] d = (0, d)
run key limit window (now ∷ times) d =
    let (allowed, d') = check key limit window now d in
    let (n, d'') = run key limit window times d' in ((if allowed then suc n else n), d'')

length-insert_old :
    (k : String) (v w : ℕ × ℕ) (d : Entries)
    → lookup k d ≡ some w
    → length (insert k v d) ≡ length d
length-insert_old k v w [] h = cc
length-insert_old k v w ((j, u) ∷ d) h = ground (arith, length-insert_old k v w d)

evict_small :
    (now window : ℕ) (d : Entries)
    → length d ≤ fallback_max_entries
    → evict fallback_max_entries now window d ≡ d
unfolding evict
evict_small now window d h = ground arith

module _ (key : String) (limit window now start count : ℕ) (d : Entries)
    (small : length d ≤ fallback_max_entries) (found : lookup key d ≡ some (start, count))
    (open_at : now < start + window) where
  not_over : leb (start + window) now ≡ false
  not_over = ground arith

  check_full : leb limit count ≡ true → check key limit window now d ≡ (false, d)
  unfolding check
  check_full full = rw (evict_small now window d small, found, not_over, full)

  check_free :
      leb limit count ≡ false
      → check key limit window now d ≡ (true, insert key (start, count + 1) d)
  unfolding check
  check_free free = rw (evict_small now window d small, found, not_over, free)

-- In an open window of a key with `count` requests counted, exactly the next `limit - count` pass.
open_window :
    (key : String) (limit window start count : ℕ) (times : List ℕ) (d : Entries)
    → length d ≤ fallback_max_entries
    → lookup key d ≡ some (start, count)
    → All (λ t. t < start + window) times
    → (run key limit window times d).0 ≡ min (length times) (limit - count)
unfolding run
open_window key limit window start count [] d h e a = omega arith
open_window key limit window start count (t ∷ times) d h e a = elim (Bool-cases (leb limit count)) [
  | inl full ↦
      rw (check_full key limit window t start count d h e a.0 full)
        (ground (arith, open_window key limit window start count times d h e a.1))
  | inr free ↦ rw (check_free key limit window t start count d h e a.0 free) (
      ground (
        arith,
        open_window key limit window start (count + 1) times (insert key (start, count + 1) d)
            (rw (length-insert_old key (start, count + 1) (start, count) d e) h)
            (lookup-insert_self key (start, count + 1) d) a.1,
      ))
]

length-insert_new : (k : String) (v : ℕ × ℕ) (d : Entries) → length (insert k v d) ≤ suc (length d)
length-insert_new k v [] = omega arith
length-insert_new k v ((j, u) ∷ d) = ground (arith, length-insert_new k v d)

check_new :
    (key : String) (limit window now : ℕ) (d : Entries)
    → length d < fallback_max_entries
    → lookup key d ≡ none
    → check key limit window now d ≡ (true, insert key (now, 1) d)
unfolding check
check_new key limit window now d h e = rw (evict_small now window d (omega arith), e)

-- With room below the cap and a limit of 1 or more: of the requests of a key that was not known, at
-- times within one window of the first, exactly `limit` pass, or all if they are fewer.
pub run_passes :
    (key : String) (limit window first : ℕ) (times : List ℕ) (d : Entries)
    → 1 ≤ limit
    → length d < fallback_max_entries
    → lookup key d ≡ none
    → All (λ t. t < first + window) times
    → (run key limit window (first ∷ times) d).0 ≡ min (suc (length times)) limit
unfolding run
run_passes key limit window first times d p h e a = rw (check_new key limit window first d h e) (
    let rest =
      open_window key limit window first 1 times (insert key (first, 1) d)
        (omega (arith, length-insert_new key (first, 1) d)) (lookup-insert_self key (first, 1) d)
        a in
    omega (arith, rest))
