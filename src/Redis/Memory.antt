-- ===== src/Redis/Memory.antt =====
-- A Redis in memory that always answers: keys with a text and the end of their life, newest first.
use real_estate_platform.Base.{
  ℕ, ◌+◌, ◌*◌, Bool, true, not, includes, keep, List, [], ◌∷◌, Option, some, none, ◌≡◌, sym, ap,
  ◌∙◌, if◌then◌else◌, String, ltb, ◌==◌, is_some, arith, eq_iff,
}
use real_estate_platform.Exec.{answer, answer-injective}
use real_estate_platform.Redis.{Redis}

pub record Entry : Type 0 where
  pub key : String
  pub text : String
  pub ends : Option ℕ

abbrev pub alive : Option ℕ → ℕ → Bool
alive none t = true
alive (some e) t = ltb t e

abbrev pub entry_at : String → ℕ → List Entry → Option String
entry_at k t [] = none
entry_at k t (e ∷ es) =
    if e.key == k then (if alive e.ends t then some e.text else none) else entry_at k t es

abbrev pub erase : List String → List Entry → List Entry
erase ks = keep (λ e. not (includes ks e.key))

pub entry_at-erase :
    (ks : List String) (es : List Entry) (j : String) (t : ℕ)
    → entry_at j t (erase ks es) ≡ (if includes ks j then none else entry_at j t es)
entry_at-erase ks [] j t = ground arith
entry_at-erase ks (e ∷ es) j t = ground (arith, entry_at-erase ks es j t, eq_iff e.key j)

abbrev pub memory : Redis
memory = record {
  Store = List Entry;
  at = entry_at;
  get = λ k now es. answer (entry_at k now es);
  set = λ k v es. answer (record { key = k; text = v; ends = none } ∷ es);
  set_ex = λ k v secs now es.
      answer (record { key = k; text = v; ends = some (now + secs * 1000) } ∷ es);
  unlink = λ ks now es. answer (0, erase ks es);
  exists = λ k now es. answer (if is_some (entry_at k now es) then 1 else 0);
  scan = λ cursor pattern size now es. answer ("0", []);
  get_at = λ k now es o e. sym (answer-injective e);
  exists_at = λ k now es n e. sym (answer-injective e);
  set_at = λ k v es es' e j t. ap (entry_at j t) (sym (answer-injective e));
  set_ex_at = λ k v secs now es es' e j t h. ap (entry_at j t) (sym (answer-injective e));
  unlink_at = λ ks now es a e j t.
      ap (λ b. entry_at j t b.1) (sym (answer-injective e)) ∙ entry_at-erase ks es j t;
}
