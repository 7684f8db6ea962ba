-- ===== src/Cache/Absence.antt =====
-- apps/api-core/src/redis/cache.service.ts: keys that are absent, and the calls on other keys.
use real_estate_platform.Base.{
  ℕ, zero, suc, ◌+◌, ◌≤◌, ◌<◌, ◌≡◌, refl, sym, ap, ◌∙◌, Bool, true, false, String, List, [], ◌∷◌,
  none, Option, includes, ltb, ◌==◌, if◌then◌else◌, arith,
}
use real_estate_platform.Exec.{answer, failed, Reply, answer-injective}
use real_estate_platform.Redis.{Redis}
use real_estate_platform.Cache

none_unless : {A : Type 0} (b : Bool) (o : Option A) → o ≡ none → (if b then none else o) ≡ none
none_unless b o e = ground arith

module _ (r : Redis) where
  pub set-absent :
      (k v : String) (ttl now : ℕ) (st : r.Store) (j : String) (t : ℕ)
      → 0 < ttl
      → now ≤ t
      → (k == j) ≡ false
      → r.at j t st ≡ none
      → r.at j t (Cache.set r k v ttl now st) ≡ none
  unfolding Cache.set
  set-absent k v ttl now st j t positive later differ h =
      let is_positive : ltb 0 ttl ≡ true = ground arith in
      rw (Cache.set, is_positive) (go (r.set_ex k v ttl now st) refl)
    where
      go :
          (reply : Reply r.Store)
          → r.set_ex k v ttl now st ≡ reply
          → r.at j t (Cache.or_dropped r st reply) ≡ none
      go (failed m) e = h
      go (answer st') e = r.set_ex_at k v ttl now st st' e j t later ∙ rw differ h

  unlink_batch-absent :
      (ks : List String) (now : ℕ) (st : r.Store) (a : ℕ × r.Store) (j : String) (t : ℕ)
      → Cache.unlink_batch r ks now st ≡ answer a
      → r.at j t st ≡ none
      → r.at j t a.1 ≡ none
  unfolding Cache.unlink_batch
  unlink_batch-absent [] now st a j t e h = ap (λ b. r.at j t b.1) (sym (answer-injective e)) ∙ h
  unlink_batch-absent (k ∷ ks) now st a j t e h =
      r.unlink_at (k ∷ ks) now st a e j t ∙ none_unless (includes (k ∷ ks) j) (r.at j t st) h

  -- The key is absent from what a sweep leaves.
  abbrev IsGone : String → ℕ → ℕ × r.Store → Type 0
  IsGone j t a = r.at j t a.1 ≡ none

  ended-IsGone :
      (j : String) (t : ℕ) (b : Bool) (a : ℕ × r.Store) (rest : ℕ × r.Store)
      → IsGone j t a
      → IsGone j t rest
      → IsGone j t (elim b [ true ↦ a | false ↦ rest ])
  ended-IsGone j t true a rest h k = h
  ended-IsGone j t false a rest h k = k

  pub sweep-IsGone :
      (fuel : ℕ) (cursor pattern : String) (size now removed : ℕ) (st : r.Store) (j : String)
      (t : ℕ)
      → r.at j t st ≡ none
      → IsGone j t (Cache.sweep r fuel cursor pattern size now removed st)
  unfolding Cache.sweep
  sweep-IsGone zero cursor pattern size now removed st j t h = h
  sweep-IsGone (suc fuel) cursor pattern size now removed st j t h =
      scanned (r.scan cursor pattern size now st)
        (λ next n st' k. sweep-IsGone fuel next pattern size now (removed + n) st' j t k)
    where
      Again : Type 0
      Again =
          (next : String) (n : ℕ) (st' : r.Store)
          → r.at j t st' ≡ none
          → IsGone j t (Cache.sweep r fuel next pattern size now (removed + n) st')

      batch :
          (next : String) (keys : List String) (reply : Reply (ℕ × r.Store))
          → Cache.unlink_batch r keys now st ≡ reply
          → Again
          → IsGone j t (elim reply [
            | failed m ↦ (removed, st)
            | answer (n, st') ↦ elim (next == "0") [
              | true ↦ (removed + n, st')
              | false ↦ Cache.sweep r fuel next pattern size now (removed + n) st'
            ]
          ])
      batch next keys (failed m) e again = h
      batch next keys (answer (n, st')) e again =
          let gone = unlink_batch-absent keys now st (n, st') j t e h in
          ended-IsGone j t (next == "0") (removed + n, st')
            (Cache.sweep r fuel next pattern size now (removed + n) st') gone
            (again next n st' gone)

      scanned :
          (reply : Reply (String × List String))
          → Again
          → IsGone j t (elim reply [
            | failed m ↦ (removed, st)
            | answer (next, keys) ↦ elim (Cache.unlink_batch r keys now st) [
              | failed m ↦ (removed, st)
              | answer (n, st') ↦ elim (next == "0") [
                | true ↦ (removed + n, st')
                | false ↦ Cache.sweep r fuel next pattern size now (removed + n) st'
              ]
            ]
          ])
      scanned (failed m) again = h
      scanned (answer (next, keys)) again =
          batch next keys (Cache.unlink_batch r keys now st) refl again
