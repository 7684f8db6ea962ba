-- ===== src/Cache.antt =====
-- apps/api-core/src/redis/cache.service.ts: a cache that fails open. A command of Redis that throws
-- reads as "absent", and a write that throws is dropped. Texts stand for the JSON of the values.
pub mod Laws
pub mod Absence
use real_estate_platform.Base.{
  ℕ, zero, suc, ◌+◌, Bool, true, false, List, [], ◌∷◌, Option, none, some, String, ◌==◌, ltb, ◌=?◌,
  if◌then◌else◌,
}
use real_estate_platform.Exec.{Reply, failed, answer, Exec, ok, continue}
use real_estate_platform.Redis.{Redis}

module _ (r : Redis) where
  -- `parse` is `JSON.parse`, which throws on a text that is no JSON.
  unfoldable pub get : {T : Type 0} → (String → Option T) → String → ℕ → r.Store → Option T
  get parse key now st = elim (r.get key now st) [
    | failed m ↦ none
    | answer none ↦ none
    | answer (some raw) ↦ parse raw
  ]

  -- A reply to a write, or the store as it was.
  abbrev pub or_dropped : r.Store → Reply r.Store → r.Store
  or_dropped st (failed m) = st
  or_dropped st (answer st') = st'

  unfoldable pub set : String → String → ℕ → ℕ → r.Store → r.Store
  set key payload ttl now st =
      if ltb 0 ttl
      then or_dropped st (r.set_ex key payload ttl now st)
      else or_dropped st (r.set key payload st)

  abbrev pub or_none_removed : r.Store → Reply (ℕ × r.Store) → ℕ × r.Store
  or_none_removed st (failed m) = (0, st)
  or_none_removed st (answer a) = a

  unfoldable pub del : List String → ℕ → r.Store → ℕ × r.Store
  del [] now st = (0, st)
  del (k ∷ ks) now st = or_none_removed st (r.unlink (k ∷ ks) now st)

  unfoldable pub exists : String → ℕ → r.Store → Bool
  exists key now st = elim (r.exists key now st) [ failed m ↦ false | answer n ↦ n =? 1 ]

  -- Whatever is done with the value: a stored value is answered, else the factory's is stored.
  abbrev pub stored_value :
      {T : Type 0} → (T → String) → String → ℕ → ℕ → Option T → r.Store → r.Store
  stored_value stringify key ttl now none st = st
  stored_value stringify key ttl now (some v) st = set key (stringify v) ttl now st

  unfoldable pub wrap :
      {T : Type 0}
      → (String → Option T)
      → (T → String)
      → String
      → ℕ
      → ℕ
      → Exec r.Store (Option T)
      → Exec r.Store (Option T)
  unfolding get
  wrap parse stringify key ttl now factory st = elim (get parse key now st) [
    | some cached ↦ (ok (some cached), st)
    | none ↦ continue (factory st) (λ v st'. (ok v, stored_value stringify key ttl now v st'))
  ]

  -- One batch of `SCAN`: its keys are unlinked; `none` is a command that throws.
  unlink_batch : List String → ℕ → r.Store → Reply (ℕ × r.Store)
  unlink_batch [] now st = answer (0, st)
  unlink_batch (k ∷ ks) now st = r.unlink (k ∷ ks) now st

  -- The `do … while (cursor !== '0')` loop, on fuel; a command that throws ends it.
  unfoldable pub sweep : ℕ → String → String → ℕ → ℕ → ℕ → r.Store → ℕ × r.Store
  unfolding unlink_batch
  sweep zero cursor pattern size now removed st = (removed, st)
  sweep (suc fuel) cursor pattern size now removed st = elim (r.scan cursor pattern size now st) [
    | failed m ↦ (removed, st)
    | answer (next, keys) ↦ elim (unlink_batch keys now st) [
      | failed m ↦ (removed, st)
      | answer (n, st') ↦ elim (next == "0") [
        | true ↦ (removed + n, st')
        | false ↦ sweep fuel next pattern size now (removed + n) st'
      ]
    ]
  ]

  unfoldable pub del_by_pattern : ℕ → String → ℕ → ℕ → r.Store → ℕ × r.Store
  unfolding sweep
  del_by_pattern fuel pattern size now st = sweep fuel "0" pattern size now 0 st
