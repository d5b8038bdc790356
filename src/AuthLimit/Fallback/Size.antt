-- ===== src/AuthLimit/Fallback/Size.antt =====
-- The size of the fallback store: eviction brings it to the cap.
use tao_gateway.Base.{
  ℕ, zero, suc, ◌+◌, ◌-◌, ◌≤◌, ◌≡◌, refl, ◌≢◌, inl, inr, String, false, none, some, [], ◌∷◌, arith,
  leb, ltb, length, take, keep, All, All-map, string_eq, Option, ◌==◌, Bool-cases,
}
use tao_gateway.Base.Dict.{lookup, insert, erase, lookup-erase}
use tao_gateway.Base.Dict.Unique.{
  IsUnique, insert-IsUnique, erase-IsUnique, keep-IsUnique, take-IsUnique, sorted-IsUnique,
  lookup-sorted, length-erase, absent-All, IsUnique-finds,
}
use tao_gateway.Base.Sorting.{sorted, length-sorted}
use tao_gateway.AuthLimit.Fallback.{
  fallback_max_entries, Entries, is_open, older, erase_all, drop_oldest, evict, count_in, check,
}

IsPresent : Entries → Entries → Type 0
IsPresent d = All (λ x. lookup x.0 d ≢ none)

still-IsPresent :
    (k : String) (d l : Entries)
    → All (λ x. (k == x.0) ≡ false) l
    → IsPresent d l
    → IsPresent (erase k d) l
unfolding IsPresent
still-IsPresent k d [] a h = tt
still-IsPresent k d (x ∷ l) a h = (rw lookup-erase (rw a.0 h.0), still-IsPresent k d l a.1 h.1)

-- Removing distinct keys that are there takes one entry each.
length-erase_all :
    (l d : Entries)
    → IsUnique l
    → IsUnique d
    → IsPresent d l
    → length (erase_all l d) + length l ≡ length d
unfolding erase_all IsPresent
length-erase_all [] d ul ud h = omega arith
length-erase_all ((k, v) ∷ l) d ul ud h = omega (
  arith,
  length-erase_all l (erase k d) ul.1 (erase-IsUnique k d ud)
      (still-IsPresent k d l (absent-All k l ul.0) h.1),
  length-erase k d ud h.0,
)

erase_all-IsUnique : (l d : Entries) → IsUnique d → IsUnique (erase_all l d)
unfolding erase_all
erase_all-IsUnique [] d u = u
erase_all-IsUnique ((k, v) ∷ l) d u = erase_all-IsUnique l (erase k d) (erase-IsUnique k d u)

take-All : (P : String × (ℕ × ℕ) → Type 0) (n : ℕ) (l : Entries) → All P l → All P (take n l)
take-All P zero l h = tt
take-All P (suc n) [] h = tt
take-All P (suc n) (x ∷ l) h = (h.0, take-All P n l h.1)

length-take_le : (n : ℕ) (l : Entries) → n ≤ length l → length (take n l) ≡ n
length-take_le zero l h = refl
length-take_le (suc n) [] h = absurd (omega arith)
length-take_le (suc n) (x ∷ l) h = omega (arith, length-take_le n l (omega arith))

sorted-IsPresent : (d : Entries) → IsUnique d → IsPresent d (sorted older d)
unfolding IsPresent
sorted-IsPresent d u =
    All-map (λ x. lookup x.0 (sorted older d) ≡ some x.1) (λ x. lookup x.0 d ≢ none)
      (λ x f. found x f) (sorted older d)
      (IsUnique-finds (sorted older d) (sorted-IsUnique older d u))
  where
    found : (x : String × (ℕ × ℕ)) → lookup x.0 (sorted older d) ≡ some x.1 → lookup x.0 d ≢ none
    found x f n = cc (lookup-sorted older x.0 d u)

drop_oldest-le : (cap : ℕ) (d : Entries) → IsUnique d → length (drop_oldest cap d) ≤ cap
unfolding drop_oldest IsPresent
drop_oldest-le cap d u =
    let n = length d - cap in
    let gone = take n (sorted older d) in
    ground (
      arith,
      length-erase_all gone d (take-IsUnique n (sorted older d) (sorted-IsUnique older d u)) u
          (take-All _ n (sorted older d) (sorted-IsPresent d u)),
      length-take_le n (sorted older d),
      length-sorted older d,
    )

-- After an eviction the store is within the cap.
pub length-evict :
    (cap now window : ℕ) (d : Entries) → IsUnique d → length (evict cap now window d) ≤ cap
unfolding evict
length-evict cap now window d u = ground (
  arith,
  drop_oldest-le cap (keep (is_open now window) d) (keep-IsUnique (is_open now window) d u),
)

evict-IsUnique : (cap now window : ℕ) (d : Entries) → IsUnique d → IsUnique (evict cap now window d)
unfolding evict drop_oldest
evict-IsUnique cap now window d u = elim (Bool-cases (leb (length d) cap)) [
  | inl small ↦ rw small u
  | inr large ↦
      let open_ones = keep (is_open now window) d in
      let unique = keep-IsUnique (is_open now window) d u in
      rw large (elim (Bool-cases (ltb cap (length open_ones))) [
        | inl h ↦ rw h (
            erase_all-IsUnique (take (length open_ones - cap) (sorted older open_ones)) open_ones
              unique)
        | inr h ↦ rw h unique
      ])
]

length-insert_le : (k : String) (v : ℕ × ℕ) (d : Entries) → length (insert k v d) ≤ suc (length d)
length-insert_le k v [] = omega arith
length-insert_le k v ((j, u) ∷ d) = ground (arith, length-insert_le k v d)

count_in-keeps :
    (key : String) (limit window now : ℕ) (o : Option (ℕ × ℕ)) (d : Entries)
    → IsUnique d
    → let d' = (count_in key limit window now o d).1 in IsUnique d' × (length d' ≤ suc (length d))
count_in-keeps key limit window now none d u =
    (insert-IsUnique key (now, 1) d u, length-insert_le key (now, 1) d)
count_in-keeps key limit window now (some (start, count)) d u =
    elim (Bool-cases (leb (start + window) now)) [
      | inl over ↦ rw over (insert-IsUnique key (now, 1) d u, length-insert_le key (now, 1) d)
      | inr fresh ↦ rw fresh (elim (Bool-cases (leb limit count)) [
        | inl full ↦ rw full (u, omega arith)
        | inr free ↦
            rw free (
              insert-IsUnique key (start, count + 1) d u,
              length-insert_le key (start, count + 1) d,
            )
      ])
    ]

-- From a store with one entry to a key, of any size, a call of `check` leaves one entry to a key, and
-- at most one entry more than the cap.
pub check-bounded :
    (key : String) (limit window now : ℕ) (d : Entries)
    → IsUnique d
    → let d' = (check key limit window now d).1 in
      IsUnique d' × (length d' ≤ suc fallback_max_entries)
unfolding check
check-bounded key limit window now d u =
    let d' = evict fallback_max_entries now window d in
    let k =
      count_in-keeps key limit window now (lookup key d') d'
        (evict-IsUnique fallback_max_entries now window d u) in
    (k.0, omega (arith, k.1, length-evict fallback_max_entries now window d u))
