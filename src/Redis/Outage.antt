-- ===== src/Redis/Outage.antt =====
-- A Redis in memory whose writes throw before a given time, and answer from then on.
use real_estate_platform.Base.{ℕ, ◌≡◌, ltb, arith, Bool, true, false}
use real_estate_platform.Exec.{Reply, failed, answer}
use real_estate_platform.Redis.{Redis}
use real_estate_platform.Redis.Memory.{memory}

module _ {A : Type 0} where
  abbrev pub failing : Bool → Reply A → Reply A
  failing true r = failed "connection is closed"
  failing false r = r

  pub failing-answer : (b : Bool) (r : Reply A) (a : A) → failing b r ≡ answer a → r ≡ answer a
  failing-answer true r a e = absurd (ground arith)
  failing-answer false r a e = e

abbrev pub down_until : ℕ → Redis
down_until end = record memory {
  set_ex = λ k v secs now es. failing (ltb now end) (memory.set_ex k v secs now es);
  unlink = λ ks now es. failing (ltb now end) (memory.unlink ks now es);
  set_ex_at = λ k v secs now es es' e.
      memory.set_ex_at k v secs now es es' (failing-answer (ltb now end) _ es' e);
  unlink_at = λ ks now es a e. memory.unlink_at ks now es a (failing-answer (ltb now end) _ a e);
}
