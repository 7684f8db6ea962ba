-- ===== src/Exec/Inversion.antt =====
-- Taking a run of a handler apart into the runs of its steps.
use real_estate_platform.Base.{
  ◌≡◌, refl, Bool, false, Option, some, arith, ◌⊎◌, inl, inr, true, none,
}
use real_estate_platform.Errors.{Thrown}
use real_estate_platform.Exec.{
  Result, ok, err, Exec, continue, handled, try_catch, catch_with, ◌>>=◌, ◌>>◌, Reply, failed,
  answer, query, store, throw_if, or_throw, if_given,
}

module _ {W A B : Type 0} where
  continue-ok :
      (r : Result A × W) (f : A → Exec W B) {b : B} {w'' : W}
      → continue r f ≡ (ok b, w'')
      → (a : A) × (w' : W) × (r ≡ (ok a, w')) × (f a w' ≡ (ok b, w''))
  continue-ok (ok a, w) f e = (a, w, refl, e)
  continue-ok (err x, w) f e = absurd (ground arith)

  pub >>=-ok :
      (m : Exec W A) (f : A → Exec W B) (w : W) {b : B} {w'' : W}
      → (m >>= f) w ≡ (ok b, w'')
      → (a : A) × (w' : W) × (m w ≡ (ok a, w')) × (f a w' ≡ (ok b, w''))
  unfolding ◌>>=◌
  >>=-ok m f w e = continue-ok (m w) f e

  pub >>-ok :
      (m : Exec W A) (k : Exec W B) (w : W) {b : B} {w'' : W}
      → (m >> k) w ≡ (ok b, w'')
      → (a : A) × (w' : W) × (m w ≡ (ok a, w')) × (k w' ≡ (ok b, w''))
  unfolding ◌>>◌
  >>-ok m k w e = continue-ok (m w) (λ _. k) e

  continue-err :
      (r : Result A × W) (f : A → Exec W B) {x : Thrown} {w'' : W}
      → continue r f ≡ (err x, w'')
      → (r ≡ (err x, w'')) ⊎ ((a : A) × (w' : W) × (r ≡ (ok a, w')) × (f a w' ≡ (err x, w'')))
  continue-err (ok a, w) f e = inr (a, w, refl, e)
  continue-err (err x, w) f e = inl (ground arith)

  pub >>=-err :
      (m : Exec W A) (f : A → Exec W B) (w : W) {x : Thrown} {w'' : W}
      → (m >>= f) w ≡ (err x, w'')
      → (m w ≡ (err x, w'')) ⊎ ((a : A) × (w' : W) × (m w ≡ (ok a, w')) × (f a w' ≡ (err x, w'')))
  unfolding ◌>>=◌
  >>=-err m f w e = continue-err (m w) f e

  pub >>-err :
      (m : Exec W A) (k : Exec W B) (w : W) {x : Thrown} {w'' : W}
      → (m >> k) w ≡ (err x, w'')
      → (m w ≡ (err x, w'')) ⊎ ((a : A) × (w' : W) × (m w ≡ (ok a, w')) × (k w' ≡ (err x, w'')))
  unfolding ◌>>◌
  >>-err m k w e = continue-err (m w) (λ _. k) e

pub query-ok :
    {W A : Type 0} (f : W → Reply A) (w : W) {a : A} {w' : W}
    → query f w ≡ (ok a, w')
    → (f w ≡ answer a) × (w' ≡ w)
unfolding query
query-ok f w e = (ground arith, ground arith)

pub query-err :
    {W A : Type 0} (f : W → Reply A) (w : W) {x : Thrown} {w' : W}
    → query f w ≡ (err x, w')
    → w' ≡ w
unfolding query
query-err f w e = ground arith

pub store-ok :
    {W D A : Type 0} (read : W → D) (write : W → D → W) (f : D → Reply (A × D)) (w : W) {a : A}
    {w' : W}
    → store read write f w ≡ (ok a, w')
    → (d : D) × (f (read w) ≡ answer (a, d)) × (w' ≡ write w d)
unfolding store
store-ok {D} {A} read write f w {a} {w'} e = go (f (read w)) refl
  where
    go :
        (r : Reply (A × D))
        → f (read w) ≡ r
        → (d : D) × (f (read w) ≡ answer (a, d)) × (w' ≡ write w d)
    go (failed m) h = absurd (ground arith)
    go (answer (b, d)) h = (d, ground arith, ground arith)

pub store-err :
    {W D A : Type 0} (read : W → D) (write : W → D → W) (f : D → Reply (A × D)) (w : W) {x : Thrown}
    {w' : W}
    → store read write f w ≡ (err x, w')
    → w' ≡ w
unfolding store
store-err read write f w e = ground arith

pub throw_if-ok :
    {W : Type 0} (b : Bool) (x : Thrown) (w : W) {u : Unit {0}} {w' : W}
    → throw_if b x w ≡ (ok u, w')
    → (b ≡ false) × (w' ≡ w)
unfolding throw_if
throw_if-ok b x w e = (ground arith, ground arith)

pub throw_if-err :
    {W : Type 0} (b : Bool) (x : Thrown) (w : W) {y : Thrown} {w' : W}
    → throw_if b x w ≡ (err y, w')
    → (b ≡ true) × (w' ≡ w) × (y ≡ x)
unfolding throw_if
throw_if-err b x w e = (ground arith, ground arith, ground arith)

pub or_throw-ok :
    {W A : Type 0} (o : Option A) (x : Thrown) (w : W) {a : A} {w' : W}
    → or_throw o x w ≡ (ok a, w')
    → (o ≡ some a) × (w' ≡ w)
unfolding or_throw
or_throw-ok o x w e = (ground arith, ground arith)

pub or_throw-err :
    {W A : Type 0} (o : Option A) (x : Thrown) (w : W) {y : Thrown} {w' : W}
    → or_throw o x w ≡ (err y, w')
    → (o ≡ none) × (w' ≡ w) × (y ≡ x)
unfolding or_throw
or_throw-err o x w e = (ground arith, ground arith, ground arith)

pub if_given-ok :
    {W A : Type 0} (o : Option A) (check : A → Exec W (Unit {0})) (w : W) {w' : W}
    → if_given o check w ≡ (ok tt, w')
    → ((o ≡ none) × (w' ≡ w)) ⊎ ((a : A) × (o ≡ some a) × (check a w ≡ (ok tt, w')))
unfolding if_given
if_given-ok none check w e = inl (refl, ground arith)
if_given-ok (some a) check w e = inr (a, refl, e)

pub if_given-err :
    {W A : Type 0} (o : Option A) (check : A → Exec W (Unit {0})) (w : W) {x : Thrown} {w' : W}
    → if_given o check w ≡ (err x, w')
    → (a : A) × (o ≡ some a) × (check a w ≡ (err x, w'))
unfolding if_given
if_given-err none check w e = absurd (ground arith)
if_given-err (some a) check w e = (a, refl, e)

pub ok-not_err : {A : Type 0} {a : A} {x : Thrown} → ok a ≡ err x → ⊥
ok-not_err e = ground arith

-- A call that answers does not throw.
pub query-not_err :
    {W A : Type 0} (f : W → Reply A) (w : W) (a : A) {x : Thrown} {w' : W}
    → f w ≡ answer a
    → query f w ≡ (err x, w')
    → ⊥
unfolding query
query-not_err f w a h e = ground arith

module _ {W A B : Type 0} where
  continue-cases :
      (x : Result A × W) (f : A → Exec W B) {r : Result B} {w' : W}
      → continue x f ≡ (r, w')
      → ((e : Thrown) × (x ≡ (err e, w')) × (r ≡ err e))
        ⊎ ((a : A) × (w1 : W) × (x ≡ (ok a, w1)) × (f a w1 ≡ (r, w')))
  continue-cases (ok a, w) f e = inr (a, w, refl, e)
  continue-cases (err x, w) f e = inl (x, ground arith, ground arith)

  -- Any outcome of two steps: the first throws, or it returns and the second has the outcome.
  pub >>=-cases :
      (m : Exec W A) (f : A → Exec W B) (w : W) {r : Result B} {w' : W}
      → (m >>= f) w ≡ (r, w')
      → ((e : Thrown) × (m w ≡ (err e, w')) × (r ≡ err e))
        ⊎ ((a : A) × (w1 : W) × (m w ≡ (ok a, w1)) × (f a w1 ≡ (r, w')))
  unfolding ◌>>=◌
  >>=-cases m f w e = continue-cases (m w) f e

  pub >>-cases :
      (m : Exec W A) (k : Exec W B) (w : W) {r : Result B} {w' : W}
      → (m >> k) w ≡ (r, w')
      → ((e : Thrown) × (m w ≡ (err e, w')) × (r ≡ err e))
        ⊎ ((a : A) × (w1 : W) × (m w ≡ (ok a, w1)) × (k w1 ≡ (r, w')))
  unfolding ◌>>◌
  >>-cases m k w e = continue-cases (m w) (λ _. k) e

module _ {W A : Type 0} where
  handled-cases :
      (x : Result A × W) (h : Thrown → Exec W A) {r : Result A} {w' : W}
      → handled x h ≡ (r, w')
      → ((a : A) × (x ≡ (ok a, w')) × (r ≡ ok a))
        ⊎ ((e : Thrown) × (w1 : W) × (x ≡ (err e, w1)) × (h e w1 ≡ (r, w')))
  handled-cases (ok a, w) h e = inl (a, ground arith, ground arith)
  handled-cases (err x, w) h e = inr (x, w, refl, e)

  pub try_catch-cases :
      (m : Exec W A) (h : Thrown → Exec W A) (w : W) {r : Result A} {w' : W}
      → try_catch m h w ≡ (r, w')
      → ((a : A) × (m w ≡ (ok a, w')) × (r ≡ ok a))
        ⊎ ((e : Thrown) × (w1 : W) × (m w ≡ (err e, w1)) × (h e w1 ≡ (r, w')))
  unfolding try_catch
  try_catch-cases m h w e = handled-cases (m w) h e

-- A write that answers, its error dropped otherwise.
pub caught_store-answered :
    {W D A : Type 0} (z : A) (read : W → D) (write : W → D → W) (f : D → Reply (A × D)) (w : W)
    {a : A × D}
    → f (read w) ≡ answer a
    → catch_with z (store read write f) w ≡ (ok a.0, write w a.1)
unfolding catch_with store
caught_store-answered z read write f w e = rw (store, e) refl
