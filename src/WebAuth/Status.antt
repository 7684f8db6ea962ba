-- ===== src/WebAuth/Status.antt =====
-- The status of the session over its steps.
use real_estate_platform.Base.{
  ℕ, ◌≡◌, refl, sym, ap, ◌∙◌, ◌⊎◌, inl, inr, Bool, Bool-cases, Option, none, some, String, ◌==◌,
  given, arith,
}
use real_estate_platform.WebAuth.{
  User, authenticated, unauthenticated, AuthState, initial, status_of, login, set_session,
  set_access_token, set_user, logout, set_has_hydrated, merge, reload,
}

abbrev pub IsSignedIn : AuthState → Type 0
IsSignedIn s =
    (s.status ≡ authenticated)
    × ((u : User) × (s.user ≡ some u))
    × ((token : String) × (s.access_token ≡ some token))

abbrev pub IsSignedOut : AuthState → Type 0
IsSignedOut s = (s.status ≡ unauthenticated) × ((s.user ≡ none) ⊎ (given s.access_token ≡ none))

status_told :
    (s : AuthState) (token : Option String) (u : Option User)
    → s.access_token ≡ token
    → s.user ≡ u
    → s.status ≡ status_of token u
    → IsSignedIn s ⊎ IsSignedOut s
unfolding status_of
status_told s none u kept known e = inr (e, inr (ap given kept))
status_told s (some t) none kept known e = inr (ground arith, inl known)
status_told s (some t) (some u) kept known e = elim (Bool-cases (t == "")) [
  | inl empty ↦ inr (ground arith, inr (ap given kept ∙ ground arith))
  | inr there ↦ inl (ground arith, (u, known), (t, kept))
]

-- A status that is made of the token and the user tells of both.
status_of-told :
    (s : AuthState) → s.status ≡ status_of s.access_token s.user → IsSignedIn s ⊎ IsSignedOut s
status_of-told s e = status_told s s.access_token s.user refl refl e

module _ (token_expires_at : Option String → Option ℕ) where
  pub data Step : AuthState → AuthState → Type 0 where
    logs_in :
        (s : AuthState) (u : User) (token : String) → Step s (login token_expires_at u token s)
    sets_session :
        (s : AuthState) (u : Option (Option User)) (token : Option String)
        → Step s (set_session token_expires_at u token s)
    sets_access_token :
        (s : AuthState) (token : Option String) → Step s (set_access_token token_expires_at token s)
    sets_user : (s : AuthState) (u : Option User) → Step s (set_user u s)
    logs_out : (s : AuthState) → Step s (logout s)
    marks : (s : AuthState) (b : Bool) → Step s (set_has_hydrated b s)
    reloads : (s : AuthState) → Step s (reload s)

  pub data Reached : AuthState → Type 0 where
    begins : Reached initial
    steps_to : {s t : AuthState} → Reached s → Step s t → Reached t

  -- Signed in, there are a user and a token; signed out, one of them is missing, or the token is
  -- empty. The expiry is that of the token.
  pub record IsSession (s : AuthState) : Type 0 where
    pub status : IsSignedIn s ⊎ IsSignedOut s
    pub expiry : s.expires_at ≡ token_expires_at s.access_token

  Step-IsSession :
      {s t : AuthState} → token_expires_at none ≡ none → Step s t → IsSession s → IsSession t
  unfolding login set_session set_access_token set_user logout set_has_hydrated reload merge
  Step-IsSession blank (logs_in s u token) i = record {
    status = inl (refl, (u, refl), (token, refl));
    expiry = refl;
  }
  Step-IsSession blank (sets_session s u token) i = record {
    status = status_of-told (set_session token_expires_at u token s) refl;
    expiry = refl;
  }
  Step-IsSession blank (sets_access_token s token) i = record {
    status = status_of-told (set_access_token token_expires_at token s) refl;
    expiry = refl;
  }
  Step-IsSession blank (sets_user s u) i = record {
    status = status_of-told (set_user u s) refl;
    expiry = i.expiry;
  }
  Step-IsSession blank (logs_out s) i = record { status = inr (refl, inl refl); expiry = sym blank }
  Step-IsSession blank (marks s b) i = record { status = i.status; expiry = i.expiry }
  Step-IsSession blank (reloads s) i = record {
    status = status_of-told (reload s) refl;
    expiry = i.expiry;
  }

  -- However the session is used, through reloads of the page too, where there is no expiry without a
  -- token, it has a user and a token where its status is authenticated, and no user, no token or an
  -- empty one where it is unauthenticated, and its expiry is that of its token.
  pub Reached-IsSession : {s : AuthState} → token_expires_at none ≡ none → Reached s → IsSession s
  Reached-IsSession blank begins = record { status = inr (refl, inl refl); expiry = sym blank }
  Reached-IsSession blank (steps_to r s) = Step-IsSession blank s (Reached-IsSession blank r)
