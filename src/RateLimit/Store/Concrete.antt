-- ===== src/RateLimit/Store/Concrete.antt =====
-- A store that meets the laws of the Redis commands: a dictionary of counters with their TTL.
use tao_gateway.Base.{
  ℕ, ◌+◌, ◌≡◌, refl, ◌≢◌, String, false, Option, none, some, arith, eq_iff, string_eq, ◌==◌,
  if◌then◌else◌,
}
use mathlib.Core.Option
use tao_gateway.Base.Int.{ℤ, pos, negsuc}
use tao_gateway.Base.Dict.{Dict, lookup, insert, lookup-insert}
use tao_gateway.RateLimit.Store.{CounterStore, or_zero, is_none}

-- A key with its counter and its TTL.
abbrev pub Entries : Type 0
Entries = Dict String (ℕ × ℤ)

abbrev pub counter : Option (ℕ × ℤ) → Option ℕ
counter none = none
counter (some (n, t)) = some n

abbrev pub ttl_of : Option (ℕ × ℤ) → ℤ
ttl_of none = negsuc 1
ttl_of (some (n, t)) = t

abbrev pub bumped : Option (ℕ × ℤ) → ℕ × ℤ
bumped none = (1, negsuc 0)
bumped (some (n, t)) = (n + 1, t)

abbrev pub expiring : Option (ℕ × ℤ) → String → ℕ → Entries → Entries
expiring none k w s = s
expiring (some (n, t)) k w s = insert k (n, pos w) s

expiring-lookup :
    (k j : String) (n : ℕ) (s : Entries) (o : Option (ℕ × ℤ))
    → lookup k s ≡ o
    → lookup j (expiring o k n s)
      ≡ (if k == j then Option.map (λ e. (e.0, pos n)) o else lookup j s)
expiring-lookup k j n s none e = ground (arith, eq_iff k j)
expiring-lookup k j n s (some (m, t)) e = lookup-insert k j (m, pos n) s

pub counter-expiring :
    (k j : String) (n : ℕ) (s : Entries) (o : Option (ℕ × ℤ))
    → lookup k s ≡ o
    → counter (lookup j (expiring o k n s)) ≡ counter (lookup j s)
counter-expiring k j n s none e = refl
counter-expiring k j n s (some (m, t)) e =
    ground (arith, eq_iff k j, expiring-lookup k j n s (some (m, t)) e)

pub incr_returns : (o : Option (ℕ × ℤ)) → (bumped o).0 ≡ or_zero (counter o) + 1
incr_returns none = refl
incr_returns (some (m, t)) = refl

pub ttl_incr :
    (k j : String) (s : Entries) (o : Option (ℕ × ℤ))
    → lookup k s ≡ o
    → ttl_of (lookup j (insert k (bumped o) s))
      ≡ (if (if k == j then is_none (counter o) else false) then negsuc 0 else ttl_of (lookup j s))
ttl_incr k j s none e = simp lookup-insert (ground arith)
ttl_incr k j s (some (m, t)) e = simp lookup-insert (ground (arith, eq_iff k j))

pub ttl_expire :
    (k j : String) (n : ℕ) (s : Entries) (o : Option (ℕ × ℤ))
    → lookup k s ≡ o
    → counter o ≢ none
    → ttl_of (lookup j (expiring o k n s)) ≡ (if k == j then pos n else ttl_of (lookup j s))
ttl_expire k j n s none e g = absurd (g refl)
ttl_expire k j n s (some (m, t)) e g = simp lookup-insert (ground arith)

pub get_incr :
    (k j : String) (s : Entries) (o : Option (ℕ × ℤ))
    → lookup k s ≡ o
    → counter (lookup j (insert k (bumped o) s))
      ≡ (if k == j then some (or_zero (counter o) + 1) else counter (lookup j s))
get_incr k j s none e = simp lookup-insert (ground arith)
get_incr k j s (some (m, t)) e = simp lookup-insert (ground arith)

abbrev pub entries : CounterStore
entries = record {
  State = Entries;
  get = λ k s. counter (lookup k s);
  incr = λ k s. ((bumped (lookup k s)).0, insert k (bumped (lookup k s)) s);
  expire = λ k n s. expiring (lookup k s) k n s;
  ttl = λ k s. ttl_of (lookup k s);
  incr_returns = λ k s. incr_returns (lookup k s);
  get-incr = λ k j s. get_incr k j s (lookup k s) refl;
  get-expire = λ k j n s p. counter-expiring k j n s (lookup k s) refl;
  ttl-incr = λ k j s. ttl_incr k j s (lookup k s) refl;
  ttl-expire = λ k j n s g. ttl_expire k j n s (lookup k s) refl g;
}
