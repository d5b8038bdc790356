-- ===== src/ApiKeys/Cap.antt =====
-- The cap on active keys of gateway/services/api_key_service.py, over calls that run at once.
mod Counts
use tao_gateway.Base.{
  ℕ, suc, ◌+◌, ◌≤◌, ◌<◌, ◌≡◌, ◌⊎◌, String, Bool, true, false, Option, some, [], ◌∷◌, ◌++◌, ◌&&◌,
  str_eq, eq_iff, if◌then◌else◌, Bool-cases, Option-cases,
}
use tao_gateway.ApiKeys.Cap.Counts.{count}
use tao_gateway.ApiKeys.Store.{KeyStore}
use tao_gateway.ApiKeys.{
  ApiKey, Table, Environment, Draw, max_keys_per_org, is_active_of, active_count, find_active,
  update_found, new_row, env_of, World, Effort, with_debug, is_full, insert_key, create_api_key,
  revoke_api_key, rotate_api_key, update_api_key,
}

module _ (x : KeyStore) (sha16 : String → String) where
  -- A create of the organization that has found active rows and holds their locks: before its count,
  -- or after a count below the cap.
  pub data Lock : Type 0 where
    no_lock held counted : Lock

  -- The tables, the create that holds the locks, and the number of creates that found no active row
  -- to lock, and have not ended.
  pub record Room : Type 0 where
    pub world : World x sha16
    pub lock : Lock
    pub free : ℕ

  -- The active rows that a create holds stay active: no other call changes them.
  abbrev pub IsKept : Lock → ℕ → Type 0
  IsKept lock n = (lock ≡ no_lock) ⊎ (0 < n)

  -- The steps of calls that run at once, for the keys of the organization `o`. At most `limit` of its
  -- creates run without a lock at one time. Such a create may add its row whatever it counts.
  pub data Step (o : String) (limit : ℕ) : Room → Room → Type 0 where
    locks :
        (w : World x sha16) (n : ℕ)
        → 0 < active_count o w.keys
        → Step o limit
            (record { world = w; lock = no_lock; free = n })
            (record { world = w; lock = held; free = n })
    counts :
        (w : World x sha16) (n : ℕ)
        → is_full x sha16 o w.keys ≡ false
        → Step o limit
            (record { world = w; lock = held; free = n })
            (record { world = w; lock = counted; free = n })
    inserts :
        (env : Environment) (name : String) (draw : Draw) (w : World x sha16) (n : ℕ)
        → Step o limit
            (record { world = w; lock = counted; free = n })
            (record { world = (insert_key x sha16 o env name draw w).1; lock = no_lock; free = n })
    gives_up :
        (w : World x sha16) (lock : Lock) (n : ℕ)
        → Step o limit
            (record { world = w; lock = lock; free = n })
            (record { world = w; lock = no_lock; free = n })
    locks_nothing :
        (w : World x sha16) (lock : Lock) (n : ℕ)
        → active_count o w.keys ≡ 0
        → n < limit
        → Step o limit
            (record { world = w; lock = lock; free = n })
            (record { world = w; lock = lock; free = suc n })
    inserts_free :
        (env : Environment) (name : String) (draw : Draw) (w : World x sha16) (lock : Lock) (n : ℕ)
        → Step o limit
            (record { world = w; lock = lock; free = suc n })
            (record { world = (insert_key x sha16 o env name draw w).1; lock = lock; free = n })
    gives_up_free :
        (w : World x sha16) (lock : Lock) (n : ℕ)
        → Step o limit
            (record { world = w; lock = lock; free = suc n })
            (record { world = w; lock = lock; free = n })
    creates :
        (org : String) (env : Environment) (name : String) (draw : Draw) (w : World x sha16)
        (lock : Lock) (n : ℕ)
        → str_eq org o ≡ false
        → Step o limit
            (record { world = w; lock = lock; free = n })
            (record {
              world = (create_api_key x sha16 org env name draw w).1;
              lock = lock;
              free = n;
            })
    revokes :
        (id org : String) (e : Effort x sha16) (w : World x sha16) (lock : Lock) (n : ℕ)
        → IsKept lock (active_count o (revoke_api_key x sha16 id org e w).1.keys)
        → Step o limit
            (record { world = w; lock = lock; free = n })
            (record { world = (revoke_api_key x sha16 id org e w).1; lock = lock; free = n })
    rotates :
        (id org : String) (draw : Draw) (e : Effort x sha16) (w : World x sha16) (lock : Lock)
        (n : ℕ)
        → IsKept lock (active_count o (rotate_api_key x sha16 id org draw e w).1.keys)
        → Step o limit
            (record { world = w; lock = lock; free = n })
            (record { world = (rotate_api_key x sha16 id org draw e w).1; lock = lock; free = n })
    updates :
        (id org : String) (debug : Option Bool) (e : Effort x sha16) (w : World x sha16)
        (lock : Lock) (n : ℕ)
        → IsKept lock (active_count o (update_api_key x sha16 id org debug e w).1.keys)
        → Step o limit
            (record { world = w; lock = lock; free = n })
            (record { world = (update_api_key x sha16 id org debug e w).1; lock = lock; free = n })

  pub data Reach (o : String) (limit : ℕ) (r : Room) : Room → Type 0 where
    start : Reach o limit r r
    then_step : {u v : Room} → Reach o limit r u → Step o limit u v → Reach o limit r v

  abbrev one_counted : Lock → ℕ
  one_counted counted = 1
  one_counted _ = 0

  -- A create that holds locks holds that of an active row; where there is one, or none below, a place
  -- is left among the creates without a lock; and all that may be added stays within the bound.
  record IsRoom (o : String) (limit : ℕ) (r : Room) : Type 0 where
    holds_row : IsKept r.lock (count x sha16 o r.world)
    free_le : r.free ≤ limit
    free_lt : (count x sha16 o r.world ≡ 0) ⊎ (r.free < limit)
    total : count x sha16 o r.world + one_counted r.lock + r.free < max_keys_per_org + limit
