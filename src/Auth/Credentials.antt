-- ===== src/Auth/Credentials.antt =====
-- What a login needs, and what its errors tell.
use text.Mathlib.TextEquality.{eq_iff}
use real_estate_platform.Base.{
  ◌≡◌, refl, sym, ap, subst, ◌∙◌, ◌⊎◌, inl, inr, Bool, Bool-cases, ◌==◌, true, false, not, Option,
  some, none, String, find, is_some, given, arith,
}
use real_estate_platform.Errors.{Thrown}
use real_estate_platform.Exec.{ok, err, ok-injective, answer-injective, answer}
use real_estate_platform.Exec.Inversion.{
  >>=-ok, >>-ok, >>=-err, >>-err, query-ok, or_throw-ok, or_throw-err, throw_if-ok, throw_if-err,
  ok-not_err, query-not_err,
}
use real_estate_platform.Schema.{User}
use real_estate_platform.Secrets.{Secrets, matches}
use real_estate_platform.Platform.{Platform, World}
use real_estate_platform.Auth.{
  LoginDto, has_email, accepted, hash_to_check, wrong_credentials, disabled, validate_credentials,
}

accepted-some :
    (o : Option User) (b : Bool) (u : User)
    → accepted o b ≡ some u
    → (o ≡ some u) × (b ≡ true) × (is_some (given u.password_hash) ≡ true)
unfolding accepted
accepted-some none b u e = absurd (ground arith)
accepted-some (some v) b u e = (ground arith, ground arith, ground arith)

-- Why an address and a password are wrong: no user has the address, the user has no password (no
-- hash, or an empty one), or the password is not that of the user's hash.
pub data IsWrong (s : Secrets) (dto : LoginDto) : Option User → Type 0 where
  unknown : IsWrong s dto none
  no_password : {u : User} → u.password_hash ≡ none → IsWrong s dto (some u)
  empty_hash : {u : User} → u.password_hash ≡ some "" → IsWrong s dto (some u)
  other_password :
      {u : User} {hash : String}
      → u.password_hash ≡ some hash
      → matches s hash dto.password ≡ false
      → IsWrong s dto (some u)

-- The user of the address is not active, and the password is that of the user's hash.
pub record IsDisabled (s : Secrets) (dto : LoginDto) (o : Option User) : Type 0 where
  pub user : User
  pub named : o ≡ some user
  pub inactive : user.is_active ≡ false
  pub hash : String
  pub has_hash : user.password_hash ≡ some hash
  pub right : matches s hash dto.password ≡ true

not-false : (b : Bool) → not b ≡ false → b ≡ true
not-false b h = ground arith

not-true : (b : Bool) → not b ≡ true → b ≡ false
not-true b h = ground arith

given_hash :
    (s : Secrets) (o : Option User) (u : User)
    → o ≡ some u
    → is_some (given u.password_hash) ≡ true
    → some (hash_to_check s o) ≡ u.password_hash
given_hash s o u e h = ground arith

with_hash :
    (s : Secrets) (dto : LoginDto) (u : User) (o : Option String)
    → u.password_hash ≡ o
    → accepted (some u) (matches s (hash_to_check s (some u)) dto.password) ≡ none
    → IsWrong s dto (some u)
unfolding accepted
with_hash s dto u none e h = no_password e
with_hash s dto u (some hash) e h = elim (Bool-cases (hash == "")) [
  | inl empty ↦ empty_hash (e ∙ ap some ((eq_iff hash "").0 empty))
  | inr there ↦ elim (Bool-cases (matches s hash dto.password)) [
    | inl right ↦ absurd (ground arith)
    | inr differs ↦ other_password e differs
  ]
]

accepted-none :
    (s : Secrets) (dto : LoginDto) (o : Option User)
    → accepted o (matches s (hash_to_check s o) dto.password) ≡ none
    → IsWrong s dto o
accepted-none s dto none h = unknown
accepted-none s dto (some u) h = with_hash s dto u u.password_hash refl h

module _ (p : Platform) (s : Secrets) where
  -- The user of a login.
  pub record IsLogin (dto : LoginDto) (w : World p) (u : User) : Type 0 where
    pub registered : find (has_email dto.email) (p.users.rows w.users) ≡ some u
    pub active : u.is_active ≡ true
    pub hash : String
    pub has_hash : u.password_hash ≡ some hash
    pub right : matches s hash dto.password ≡ true

  -- A login that is accepted names a registered, active user and the password of its hash, and
  -- changes nothing.
  pub validate_credentials-IsLogin :
      (dto : LoginDto) (w w' : World p) (u : User)
      → validate_credentials p s dto w ≡ (ok u, w')
      → IsLogin dto w u × (w' ≡ w)
  unfolding validate_credentials
  validate_credentials-IsLogin dto w w' u e =
      let (found, w1, e1, rest1) = >>=-ok _ _ w e in
      let (v, w2, e2, rest2) = >>=-ok _ _ w1 rest1 in
      let (b, w3, e3, rest3) = >>-ok _ _ w2 rest2 in
      let (replied, same1) = query-ok _ w e1 in
      let (chosen, same2) = or_throw-ok _ _ w1 e2 in
      let (active, same3) = throw_if-ok _ _ w2 e3 in
      let (is_found, right, has) = accepted-some found _ v chosen in
      let same : v ≡ u = ok-injective (ap (λ r. r.0) rest3) in
      let listed = sym (p.users.find_first_rows _ w.users found replied) ∙ is_found in
      (
        subst (IsLogin dto w) same (record {
          registered = listed;
          active = not-false v.is_active active;
          hash = hash_to_check s found;
          has_hash = sym (given_hash s found v is_found has);
          right = right;
        }),
        sym (ap (λ r. r.1) rest3) ∙ same3 ∙ same2 ∙ same1,
      )

  -- Where the database answers, a login that is refused changes nothing: it throws the one error of
  -- wrong credentials, where no user has the address, or the user has no password or another, or
  -- else the error of a disabled account, where the user is not active and the password is right.
  pub validate_credentials-refused :
      (dto : LoginDto) (w w' : World p) (x : Thrown) (o : Option User)
      → p.users.find_first (has_email dto.email) w.users ≡ answer o
      → validate_credentials p s dto w ≡ (err x, w')
      → (((x ≡ wrong_credentials) × IsWrong s dto o) ⊎ ((x ≡ disabled) × IsDisabled s dto o))
        × (w' ≡ w)
  unfolding validate_credentials
  validate_credentials-refused dto w w' x o replied e = elim (>>=-err _ _ w e) [
    | inl failing ↦ absurd (query-not_err _ w o replied failing)
    | inr (found, w1, e1, rest1) ↦
        let (replied1, same1) = query-ok _ w e1 in
        let same = answer-injective (sym replied ∙ replied1) in
        elim (>>=-err _ _ w1 rest1) [
          | inl refused ↦
              let (missing, kept, is_wrong) = or_throw-err _ _ w1 refused in
              (
                inl (
                  is_wrong,
                  subst (IsWrong s dto) (sym same) (accepted-none s dto found missing),
                ),
                kept ∙ same1,
              )
          | inr (v, w2, e2, rest2) ↦ elim (>>-err _ _ w2 rest2) [
            | inl refused ↦
                let (inactive, kept, is_disabled) = throw_if-err _ _ w2 refused in
                let (chosen, same2) = or_throw-ok _ _ w1 e2 in
                let (is_found, right, has) = accepted-some found _ v chosen in
                (
                  inr (
                    is_disabled,
                    record {
                      user = v;
                      named = same ∙ is_found;
                      inactive = not-true v.is_active inactive;
                      hash = hash_to_check s found;
                      has_hash = sym (given_hash s found v is_found has);
                      right = right;
                    },
                  ),
                  kept ∙ same2 ∙ same1,
                )
            | inr (b, w3, e3, rest3) ↦ absurd (ok-not_err (ap (λ r. r.0) rest3))
          ]
        ]
  ]
