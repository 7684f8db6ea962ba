-- ===== src/Redis.antt =====
-- Redis behind its client (apps/api-core/src/redis uses ioredis). The server is not part of the
-- repository: it is a parameter, with what its commands document. Times are milliseconds; a key
-- set with `EX` is gone once its seconds have passed.
pub mod Memory
pub mod Up
pub mod Outage
use real_estate_platform.Base.{
  ℕ, ◌+◌, ◌*◌, ◌≤◌, Bool, includes, List, Option, some, none, ◌≡◌, if◌then◌else◌, String, ltb, ◌==◌,
  is_some,
}
use real_estate_platform.Exec.{Reply, answer}

pub record Redis : Type 1 where
  pub Store : Type 0
  -- The text at a key at a time, if the key is there.
  pub at : String → ℕ → Store → Option String
  pub get : String → ℕ → Store → Reply (Option String)
  pub set : String → String → Store → Reply Store
  -- The lifetime in seconds, then the time of the call.
  pub set_ex : String → String → ℕ → ℕ → Store → Reply Store
  pub unlink : List String → ℕ → Store → Reply (ℕ × Store)
  pub exists : String → ℕ → Store → Reply ℕ
  -- Cursor, pattern and batch size; the next cursor and a batch of keys.
  pub scan : String → String → ℕ → ℕ → Store → Reply (String × List String)
  pub get_at :
      (k : String) (now : ℕ) (st : Store) (o : Option String)
      → get k now st ≡ answer o
      → o ≡ at k now st
  pub exists_at :
      (k : String) (now : ℕ) (st : Store) (n : ℕ)
      → exists k now st ≡ answer n
      → n ≡ (if is_some (at k now st) then 1 else 0)
  pub set_at :
      (k v : String) (st st' : Store)
      → set k v st ≡ answer st'
      → (j : String) (t : ℕ) → at j t st' ≡ (if k == j then some v else at j t st)
  pub set_ex_at :
      (k v : String) (secs now : ℕ) (st st' : Store)
      → set_ex k v secs now st ≡ answer st'
      → (j : String) (t : ℕ) → now ≤ t
      → at j t st'
        ≡ (if k == j then (if ltb t (now + secs * 1000) then some v else none) else at j t st)
  pub unlink_at :
      (ks : List String) (now : ℕ) (st : Store) (a : ℕ × Store)
      → unlink ks now st ≡ answer a
      → (j : String) (t : ℕ) → at j t a.1 ≡ (if includes ks j then none else at j t st)
