-- ===== src/Exec/Frames.antt =====
-- Steps that leave a part of the stores as it was, whether they return or throw.
use real_estate_platform.Base.{◌≡◌, refl, ◌∙◌, Bool, true, false, Option, some, none}
use real_estate_platform.Errors.{Thrown}
use real_estate_platform.Exec.{
  Result, ok, err, throw_if, or_throw, Exec, continue, ◌>>=◌, ◌>>◌, change, catch_with, rescue,
  try_catch, handled, pure, query, store, Reply, failed, answer,
}

abbrev pub Keeps : {W A X : Type 0} → (W → X) → Exec W A → Type 0
Keeps {W} part m = (w : W) → part (m w).1 ≡ part w

module _ {W X : Type 0} (part : W → X) where
  continue-Keeps :
      {A B : Type 0} (w : W) (r : Result A × W) (f : A → Exec W B)
      → part r.1 ≡ part w
      → ((a : A) → Keeps part (f a))
      → part (continue r f).1 ≡ part w
  continue-Keeps w (ok a, w') f h k = k a w' ∙ h
  continue-Keeps w (err x, w') f h k = h

  pub >>=-Keeps :
      {A B : Type 0} (m : Exec W A) (f : A → Exec W B)
      → Keeps part m
      → ((a : A) → Keeps part (f a))
      → Keeps part (m >>= f)
  unfolding ◌>>=◌
  >>=-Keeps m f h k w = continue-Keeps w (m w) f (h w) k

  pub >>-Keeps :
      {A B : Type 0} (m : Exec W A) (k : Exec W B)
      → Keeps part m
      → Keeps part k
      → Keeps part (m >> k)
  unfolding ◌>>◌
  >>-Keeps m k h g w = continue-Keeps w (m w) (λ _. k) (h w) (λ _. g)

  pub catch_with-Keeps :
      {A : Type 0} (a : A) (m : Exec W A) → Keeps part m → Keeps part (catch_with a m)
  unfolding catch_with
  catch_with-Keeps {A} a m h w = go (m w) (h w)
    where
      go : (r : Result A × W) → part r.1 ≡ part w → part (rescue a r).1 ≡ part w
      go (ok b, v) e = e
      go (err x, v) e = e

  pub try_catch-Keeps :
      {A : Type 0} (m : Exec W A) (h : Thrown → Exec W A)
      → Keeps part m
      → ((e : Thrown) → Keeps part (h e))
      → Keeps part (try_catch m h)
  unfolding try_catch
  try_catch-Keeps {A} m h k l w = go (m w) (k w)
    where
      go : (r : Result A × W) → part r.1 ≡ part w → part (handled r h).1 ≡ part w
      go (ok a, w') e = e
      go (err x, w') e = l x w' ∙ e

  pub pure-Keeps : {A : Type 0} (a : A) → Keeps part (pure {W = W} a)
  pure-Keeps a w = refl

  pub query-Keeps : {A : Type 0} (f : W → Reply A) → Keeps part (query f)
  unfolding query
  query-Keeps {A} f w = go (f w)
    where
      go : (r : Reply A) → part (query (λ v. r) w).1 ≡ part w
      go (failed m) = refl
      go (answer a) = refl

  pub store-Keeps :
      {D A : Type 0} (read : W → D) (write : W → D → W) (f : D → Reply (A × D))
      → ((w : W) (d : D) → part (write w d) ≡ part w)
      → Keeps part (store read write f)
  unfolding store
  store-Keeps {D} {A} read write f h w = go (f (read w))
    where
      go : (r : Reply (A × D)) → part (store read write (λ d. r) w).1 ≡ part w
      go (failed m) = refl
      go (answer (a, d)) = h w d

  pub change-Keeps :
      {D A : Type 0} (read : W → D) (write : W → D → W) (f : D → A × D)
      → ((w : W) (d : D) → part (write w d) ≡ part w)
      → Keeps part (change read write f)
  unfolding change
  change-Keeps read write f h w = h w (f (read w)).1

  -- A write that keeps the part by what the call documents of its answers.
  pub store-Keeps_answered :
      {D A : Type 0} (read : W → D) (write : W → D → W) (f : D → Reply (A × D))
      → ((w : W) (a : A × D) → f (read w) ≡ answer a → part (write w a.1) ≡ part w)
      → Keeps part (store read write f)
  unfolding store
  store-Keeps_answered {D} {A} read write f h w = go (f (read w)) refl
    where
      go : (r : Reply (A × D)) → f (read w) ≡ r → part (store read write (λ d. r) w).1 ≡ part w
      go (failed m) e = refl
      go (answer (a, d)) e = h w (a, d) e

  pub throw_if-Keeps : (b : Bool) (x : Thrown) → Keeps part (throw_if {W = W} b x)
  unfolding throw_if
  throw_if-Keeps true x w = refl
  throw_if-Keeps false x w = refl

  pub or_throw-Keeps : {A : Type 0} (o : Option A) (x : Thrown) → Keeps part (or_throw {W = W} o x)
  unfolding or_throw
  or_throw-Keeps none x w = refl
  or_throw-Keeps (some a) x w = refl
