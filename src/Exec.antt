-- ===== src/Exec.antt =====
-- A request handler: a step on the stores `W` that returns a value or throws. What was written
-- before the throw stays written, as in the source, which runs no transaction around a handler.
pub mod Inversion
pub mod Frames
pub mod Totality
use real_estate_platform.Base.{Bool, true, false, Option, none, some, String, ◌≡◌}
use real_estate_platform.Errors.{Thrown, library}

pub data Result {ℓ} (A : Type ℓ) : Type ℓ where
  ok : A → Result A
  err : Thrown → Result A

abbrev pub Exec : Type 0 → Type 0 → Type 0
Exec W A = W → Result A × W

module _ {W A B : Type 0} where
  abbrev pub continue : Result A × W → (A → Exec W B) → Result B × W
  continue (ok a, w) f = f a w
  continue (err e, w) f = (err e, w)

infixl 5 ◌>>=◌ ◌>>◌
unfoldable pub ◌>>=◌ : {W A B : Type 0} → Exec W A → (A → Exec W B) → Exec W B
◌>>=◌ m f w = continue (m w) f

unfoldable pub ◌>>◌ : {W A B : Type 0} → Exec W A → Exec W B → Exec W B
◌>>◌ m k w = continue (m w) (λ _. k)

abbrev pub pure : {W A : Type 0} → A → Exec W A
pure a w = (ok a, w)

abbrev pub throw : {W A : Type 0} → Thrown → Exec W A
throw e w = (err e, w)

-- `if (bad) { throw e; }`
unfoldable pub throw_if : {W : Type 0} → Bool → Thrown → Exec W (Unit {0})
throw_if true e w = (err e, w)
throw_if false e w = (ok tt, w)

-- A check that runs only on a value that is there.
unfoldable pub if_given : {W A : Type 0} → Option A → (A → Exec W (Unit {0})) → Exec W (Unit {0})
if_given none check w = (ok tt, w)
if_given (some a) check w = check a w

unfoldable pub or_throw : {W A : Type 0} → Option A → Thrown → Exec W A
or_throw none e w = (err e, w)
or_throw (some a) e w = (ok a, w)

-- What a driver (Prisma, Mongoose, Redis) answers to a call, or the message of what it throws.
pub data Reply {ℓ} (A : Type ℓ) : Type ℓ where
  failed : String → Reply A
  answer : A → Reply A

pub ok-injective {ℓ} : {A : Type ℓ} {a b : A} → ok a ≡ ok b → a ≡ b
ok-injective e = cc

pub answer-injective {ℓ} : {A : Type ℓ} {a b : A} → answer a ≡ answer b → a ≡ b
answer-injective e = cc

-- A call that reads. A call that throws is taken to leave the stores as they were.
unfoldable pub query : {W A : Type 0} → (W → Reply A) → Exec W A
query f w = elim (f w) [ failed m ↦ (err (library m), w) | answer a ↦ (ok a, w) ]

-- A call that writes one of the stores.
unfoldable pub store : {W D A : Type 0} → (W → D) → (W → D → W) → (D → Reply (A × D)) → Exec W A
store read write f w = elim (f (read w)) [
  | failed m ↦ (err (library m), w)
  | answer (a, d) ↦ (ok a, write w d)
]

-- A helper of the source that never throws and writes one of the stores.
unfoldable pub change : {W D A : Type 0} → (W → D) → (W → D → W) → (D → A × D) → Exec W A
change read write f w = let (a, d) = f (read w) in (ok a, write w d)

abbrev pub rescue : {W A : Type 0} → A → Result A × W → Result A × W
rescue a (ok b, w) = (ok b, w)
rescue a (err e, w) = (ok a, w)

-- `call.catch(() => value)`: what the call throws becomes a value.
unfoldable pub catch_with : {W A : Type 0} → A → Exec W A → Exec W A
catch_with a m w = rescue a (m w)

abbrev pub handled : {W A : Type 0} → Result A × W → (Thrown → Exec W A) → Result A × W
handled (ok a, w) h = (ok a, w)
handled (err e, w) h = h e w

-- `try { … } catch (error) { … }`.
unfoldable pub try_catch : {W A : Type 0} → Exec W A → (Thrown → Exec W A) → Exec W A
try_catch m h w = handled (m w) h

-- `prisma.$transaction`: what throws leaves the stores as they were before.
abbrev pub rolled_back : {W A : Type 0} → W → Result A × W → Result A × W
rolled_back w (ok a, w') = (ok a, w')
rolled_back w (err e, w') = (err e, w)

unfoldable pub transaction : {W A : Type 0} → Exec W A → Exec W A
transaction m w = rolled_back w (m w)

-- A declaration that unfolds this computes with all of the above.
unfoldable pub steps : Unit {0}
unfolding ◌>>=◌ ◌>>◌ throw_if if_given or_throw query store change catch_with try_catch transaction
steps = tt
