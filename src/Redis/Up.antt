-- ===== src/Redis/Up.antt =====
-- A Redis that answers the commands that the cache service sends it.
use real_estate_platform.Base.{ℕ, String, List, ◌≡◌, refl}
use real_estate_platform.Exec.{answer}
use real_estate_platform.Redis.{Redis}
use real_estate_platform.Redis.Memory.{memory}

pub record Up (r : Redis) : Type 0 where
  pub sets : (k v : String) (st : r.Store) → (st' : r.Store) × (r.set k v st ≡ answer st')
  pub sets_ex :
      (k v : String) (secs now : ℕ) (st : r.Store)
      → (st' : r.Store) × (r.set_ex k v secs now st ≡ answer st')
  pub unlinks :
      (ks : List String) (now : ℕ) (st : r.Store)
      → (a : ℕ × r.Store) × (r.unlink ks now st ≡ answer a)
  pub tells : (k : String) (now : ℕ) (st : r.Store) → (n : ℕ) × (r.exists k now st ≡ answer n)

pub memory-Up : Up memory
memory-Up = record {
  sets = λ k v st. (_, refl);
  sets_ex = λ k v secs now st. (_, refl);
  unlinks = λ ks now st. (_, refl);
  tells = λ k now st. (_, refl);
}
