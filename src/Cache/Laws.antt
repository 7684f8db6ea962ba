-- ===== src/Cache/Laws.antt =====
-- What the cache's calls do to the keys of a Redis that answers.
use real_estate_platform.Base.{
  ℕ, ◌+◌, ◌*◌, ◌≤◌, ◌<◌, ◌≡◌, Bool, true, String, List, ◌∷◌, some, none, includes, is_some, ltb,
  ◌==◌, ◌=?◌, if◌then◌else◌, arith,
}
use real_estate_platform.Redis.{Redis}
use real_estate_platform.Redis.Up.{Up}
use real_estate_platform.Cache

one_or_none : (b : Bool) (n : ℕ) → n ≡ (if b then 1 else 0) → (n =? 1) ≡ b
one_or_none b n e = ground arith

module _ (r : Redis) (up : Up r) where
  pub exists-at :
      (k : String) (t : ℕ) (st : r.Store) → Cache.exists r k t st ≡ is_some (r.at k t st)
  unfolding Cache.exists
  exists-at k t st =
      let (n, e) = up.tells k t st in
      rw (Cache.exists, e) (one_or_none (is_some (r.at k t st)) n (r.exists_at k t st n e))

  pub set-at :
      (k v : String) (ttl now : ℕ) (st : r.Store)
      → 0 < ttl
      → (j : String) (t : ℕ) → now ≤ t
      → r.at j t (Cache.set r k v ttl now st)
        ≡ (if k == j then (if ltb t (now + ttl * 1000) then some v else none) else r.at j t st)
  unfolding Cache.set
  set-at k v ttl now st h j t later =
      let (st', e) = up.sets_ex k v ttl now st in
      let positive : ltb 0 ttl ≡ true = ground arith in
      rw (Cache.set, positive, e) (r.set_ex_at k v ttl now st st' e j t later)

  pub del-at :
      (k : String) (ks : List String) (now : ℕ) (st : r.Store) (j : String) (t : ℕ)
      → r.at j t (Cache.del r (k ∷ ks) now st).1
        ≡ (if includes (k ∷ ks) j then none else r.at j t st)
  unfolding Cache.del
  del-at k ks now st j t =
      let (a, e) = up.unlinks (k ∷ ks) now st in
      rw (Cache.del, e) (r.unlink_at (k ∷ ks) now st a e j t)
