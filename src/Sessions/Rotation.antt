-- ===== src/Sessions/Rotation.antt =====
-- A refresh token is used once.
use tao_gateway.Base.{
  ℕ, ◌≡◌, refl, ◌⊎◌, inl, inr, String, Bool, true, false, some, [], ◌∷◌, arith, All, All-append,
  keep, map, ltb, str_eq, Bool-cases, Option-cases,
}
use tao_gateway.Errors.{GatewayError, ok, err}
use tao_gateway.Sessions.{
  RefreshToken, Table, is_revoked, find_token, mark, is_left, create_refresh_token, exchange,
  rotate_refresh_token, revoke_refresh_token,
}

-- A row of another token, or one that is revoked.
abbrev pub IsSpentRow : String → RefreshToken → Type 0
IsSpentRow h r = (str_eq r.token_hash h ≡ false) ⊎ (is_revoked r ≡ true)

abbrev pub IsSpent : String → Table → Type 0
IsSpent h rows = All (IsSpentRow h) rows

keep-IsSpent :
    (h : String) (p : RefreshToken → Bool) (rows : Table) → IsSpent h rows → IsSpent h (keep p rows)
keep-IsSpent h p [] s = tt
keep-IsSpent h p (r ∷ rows) s = elim (Bool-cases (p r)) [
  | inl kept ↦ rw kept (s.0, keep-IsSpent h p rows s.1)
  | inr dropped ↦ rw dropped (keep-IsSpent h p rows s.1)
]

mark-IsSpentRow :
    (h k : String) (now : ℕ) (r : RefreshToken) → IsSpentRow h r → IsSpentRow h (mark k now r)
mark-IsSpentRow h k now r s = elim (Bool-cases (str_eq r.token_hash k)) [
  | inl here ↦ simp here (inr refl)
  | inr there ↦ simp there s
]

mark-IsSpent :
    (h k : String) (now : ℕ) (rows : Table) → IsSpent h rows → IsSpent h (map (mark k now) rows)
mark-IsSpent h k now [] s = tt
mark-IsSpent h k now (r ∷ rows) s = (mark-IsSpentRow h k now r s.0, mark-IsSpent h k now rows s.1)

-- Marking a token spends it.
mark-spends : (h : String) (now : ℕ) (rows : Table) → IsSpent h (map (mark h now) rows)
mark-spends h now [] = tt
mark-spends h now (r ∷ rows) = (spent, mark-spends h now rows)
  where
    spent : IsSpentRow h (mark h now r)
    spent = elim (Bool-cases (str_eq r.token_hash h)) [
      | inl here ↦ simp here (inr refl)
      | inr there ↦ simp there (inl refl)
    ]

find-IsSpent :
    (h : String) (rows : Table) (r : RefreshToken)
    → IsSpent h rows
    → find_token h rows ≡ some r
    → is_revoked r ≡ true
unfolding find_token
find-IsSpent h [] r s f = cc
find-IsSpent h (q ∷ rows) r s f = elim (Bool-cases (str_eq q.token_hash h)) [
  | inl here ↦ ground (arith, s.0, here, rw here at f)
  | inr there ↦ find-IsSpent h rows r s.1 (rw there at f)
]

module _ (sha256 : String → String) (lifetime : ℕ) where
  -- What happens to the table: a login (the other calls of `create_refresh_token`), a rotation, a
  -- logout. A drawn token is not the one in question.
  pub data Step (h : String) : Table → Table → Type 0 where
    logs_in :
        (drawn org_id : String) (now : ℕ) (rows : Table)
        → str_eq (sha256 drawn) h ≡ false
        → Step h rows (create_refresh_token sha256 lifetime drawn org_id now rows)
    rotates :
        (token drawn : String) (now : ℕ) (rows : Table)
        → str_eq (sha256 drawn) h ≡ false
        → Step h rows (rotate_refresh_token sha256 lifetime token now drawn rows).1
    logs_out :
        (token : String) (now : ℕ) (rows : Table)
        → Step h rows (revoke_refresh_token sha256 lifetime token now rows)

  pub data Reach (h : String) (rows : Table) : Table → Type 0 where
    stays : Reach h rows rows
    goes : {mid end : Table} → Reach h rows mid → Step h mid end → Reach h rows end

  exchange-IsSpent :
      (h k drawn : String) (now : ℕ) (rows : Table) (r : RefreshToken)
      → str_eq (sha256 drawn) h ≡ false
      → IsSpent h (map (mark k now) rows)
      → IsSpent h (exchange sha256 lifetime k now drawn rows r).1
  exchange-IsSpent h k drawn now rows r n s =
      All-append (IsSpentRow h) (keep (is_left k r.org_id now) (map (mark k now) rows)) _
        (keep-IsSpent h (is_left k r.org_id now) (map (mark k now) rows) s) (inl n, tt)

  rotate-IsSpent :
      (h token drawn : String) (now : ℕ) (rows : Table)
      → str_eq (sha256 drawn) h ≡ false
      → IsSpent h rows
      → IsSpent h (rotate_refresh_token sha256 lifetime token now drawn rows).1
  unfolding rotate_refresh_token
  rotate-IsSpent h token drawn now rows n s = elim (Option-cases (find_token (sha256 token) rows)) [
    | inl missing ↦ rw missing s
    | inr (r, found) ↦ elim (Bool-cases (is_revoked r)) [
      | inl revoked ↦ rw (found, revoked) s
      | inr good ↦ elim (Bool-cases (ltb r.expires_at now)) [
        | inl late ↦ rw (found, good, late) s
        | inr in_time ↦
            rw (found, good, in_time)
              (exchange-IsSpent h (sha256 token) drawn now rows r n
                (mark-IsSpent h (sha256 token) now rows s))
      ]
    ]
  ]

  logout-IsSpent :
      (h token : String) (now : ℕ) (rows : Table)
      → IsSpent h rows
      → IsSpent h (revoke_refresh_token sha256 lifetime token now rows)
  unfolding revoke_refresh_token
  logout-IsSpent h token now rows s = elim (Option-cases (find_token (sha256 token) rows)) [
    | inl missing ↦ rw missing s
    | inr (r, found) ↦ elim (Bool-cases (is_revoked r)) [
      | inl revoked ↦ rw (found, revoked) s
      | inr good ↦ rw (found, good) (mark-IsSpent h (sha256 token) now rows s)
    ]
  ]

  Step-IsSpent : (h : String) (rows end : Table) → Step h rows end → IsSpent h rows → IsSpent h end
  Step-IsSpent h rows end (Step.logs_in drawn org_id now _ n) s =
      All-append (IsSpentRow h) rows _ s (inl n, tt)
  Step-IsSpent h rows end (Step.rotates token drawn now _ n) s =
      rotate-IsSpent h token drawn now rows n s
  Step-IsSpent h rows end (Step.logs_out token now _) s = logout-IsSpent h token now rows s

  Reach-IsSpent :
      (h : String) (rows end : Table) → Reach h rows end → IsSpent h rows → IsSpent h end
  Reach-IsSpent h rows end Reach.stays s = s
  Reach-IsSpent h rows end (Reach.goes {mid} r step) s =
      Step-IsSpent h mid end step (Reach-IsSpent h rows mid r s)

  rotate-spends :
      (token drawn : String) (now : ℕ) (rows : Table) (o : String × String)
      → str_eq (sha256 drawn) (sha256 token) ≡ false
      → (rotate_refresh_token sha256 lifetime token now drawn rows).0 ≡ ok o
      → IsSpent (sha256 token) (rotate_refresh_token sha256 lifetime token now drawn rows).1
  unfolding rotate_refresh_token
  rotate-spends token drawn now rows o n h =
      let k = sha256 token in
      elim (Option-cases (find_token k rows)) [
        | inl missing ↦ absurd (no_result (rw missing at h))
        | inr (r, found) ↦ elim (Bool-cases (is_revoked r)) [
          | inl revoked ↦ absurd (no_result (rw (found, revoked) at h))
          | inr good ↦ elim (Bool-cases (ltb r.expires_at now)) [
            | inl late ↦ absurd (no_result (rw (found, good, late) at h))
            | inr in_time ↦
                rw (found, good, in_time)
                  (exchange-IsSpent k k drawn now rows r n (mark-spends k now rows))
          ]
        ]
      ]
    where
      no_result : {e : GatewayError} → err e ≡ ok o → ⊥
      no_result e = cc

  rejects_spent :
      (token drawn : String) (now : ℕ) (rows : Table)
      → IsSpent (sha256 token) rows
      → (e : GatewayError) × (rotate_refresh_token sha256 lifetime token now drawn rows
          ≡ (err e, rows))
  unfolding rotate_refresh_token
  rejects_spent token drawn now rows s = elim (Option-cases (find_token (sha256 token) rows)) [
    | inl missing ↦ rw missing (_, refl)
    | inr (r, found) ↦
        let revoked = find-IsSpent (sha256 token) rows r s found in rw (found, revoked) (_, refl)
  ]

  -- After a refresh token was exchanged once, whatever logins, rotations and logouts follow, a second
  -- exchange of it raises and changes nothing, as long as no drawn token has the same digest.
  pub rotate_refresh_token_once :
      (token drawn again : String) (now later : ℕ) (rows end : Table) (o : String × String)
      → str_eq (sha256 drawn) (sha256 token) ≡ false
      → (rotate_refresh_token sha256 lifetime token now drawn rows).0 ≡ ok o
      → Reach (sha256 token) (rotate_refresh_token sha256 lifetime token now drawn rows).1 end
      → (e : GatewayError) × (rotate_refresh_token sha256 lifetime token later again end
          ≡ (err e, end))
  rotate_refresh_token_once token drawn again now later rows end o n h r =
      rejects_spent token again later end
        (Reach-IsSpent (sha256 token) _ end r (rotate-spends token drawn now rows o n h))
