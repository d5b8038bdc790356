-- ===== src/AuthLimit/Fallback.antt =====
-- `_FallbackStore` of gateway/core/rate_limit.py. Times are whole microseconds of the monotonic
-- clock.
pub mod Size
pub mod Window
use tao_gateway.Base.{
  ℕ, ◌+◌, ◌-◌, String, Bool, true, false, none, some, List, [], ◌∷◌, leb, ltb, length, take, keep,
  string_eq, if◌then◌else◌, Option,
}
use tao_gateway.Base.Dict.{Dict, lookup, insert, erase}
use tao_gateway.Base.Sorting.{sorted}

abbrev pub fallback_max_entries : ℕ
fallback_max_entries = 10_000

-- key → (window_start, count)
abbrev pub Entries : Type 0
Entries = Dict String (ℕ × ℕ)

-- `now - start >= window`
abbrev pub is_over : ℕ → ℕ → ℕ → Bool
is_over now window start = leb (start + window) now

-- `now - v[0] < window`
abbrev pub is_open : ℕ → ℕ → String × (ℕ × ℕ) → Bool
is_open now window (k, (start, count)) = ltb now (start + window)

abbrev pub older : String × (ℕ × ℕ) → String × (ℕ × ℕ) → Bool
older (j, (s, _)) (k, (t, _)) = leb s t

-- `for k in …: del self._entries[k]`
unfoldable pub erase_all : Entries → Entries → Entries
erase_all [] d = d
erase_all ((k, v) ∷ old) d = erase_all old (erase k d)

unfoldable pub drop_oldest : ℕ → Entries → Entries
unfolding erase_all
drop_oldest cap d =
    if ltb cap (length d) then erase_all (take (length d - cap) (sorted older d)) d else d

-- `_evict`, at a cap of entries.
unfoldable pub evict : ℕ → ℕ → ℕ → Entries → Entries
unfolding drop_oldest
evict cap now window d =
    if leb (length d) cap then d else drop_oldest cap (keep (is_open now window) d)

abbrev pub count_in : String → ℕ → ℕ → ℕ → Option (ℕ × ℕ) → Entries → Bool × Entries
count_in key limit window now none d = (true, insert key (now, 1) d)
count_in key limit window now (some (start, count)) d =
    if is_over now window start
    then (true, insert key (now, 1) d)
    else if leb limit count
    then (false, d)
    else (true, insert key (start, count + 1) d)

-- `check`, at the time `now`.
unfoldable pub check : String → ℕ → ℕ → ℕ → Entries → Bool × Entries
unfolding evict
check key limit window now d =
    let d' = evict fallback_max_entries now window d in
    count_in key limit window now (lookup key d') d'

-- `clear`, and so `clear_fallback_store`.
abbrev pub clear : Entries → Entries
clear d = []
