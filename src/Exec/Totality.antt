-- ===== src/Exec/Totality.antt =====
-- Steps that never throw.
use real_estate_platform.Base.{◌≡◌, refl, ap, ◌∙◌}
use real_estate_platform.Exec.{
  Result, ok, err, Exec, continue, ◌>>=◌, ◌>>◌, change, catch_with, rescue, pure,
}

abbrev pub Runs : {W A : Type 0} → Exec W A → Type 0
Runs {W} {A} m = (w : W) → (a : A) × (w' : W) × (m w ≡ (ok a, w'))

module _ {W A B : Type 0} where
  pub >>=-Runs :
      (m : Exec W A) (f : A → Exec W B) → Runs m → ((a : A) → Runs (f a)) → Runs (m >>= f)
  unfolding ◌>>=◌
  >>=-Runs m f h k w =
      let (a, w', e) = h w in let (b, w'', e') = k a w' in (b, w'', ap (λ r. continue r f) e ∙ e')

  pub >>-Runs : (m : Exec W A) (k : Exec W B) → Runs m → Runs k → Runs (m >> k)
  unfolding ◌>>◌
  >>-Runs m k h g w =
      let (a, w', e) = h w in
      let (b, w'', e') = g w' in (b, w'', ap (λ r. continue r (λ _. k)) e ∙ e')

pub catch_with-Runs : {W A : Type 0} (a : A) (m : Exec W A) → Runs (catch_with a m)
unfolding catch_with
catch_with-Runs {W} {A} a m w = go (m w)
  where
    go : (r : Result A × W) → (b : A) × (w' : W) × (rescue a r ≡ (ok b, w'))
    go (ok b, v) = (b, v, refl)
    go (err x, v) = (a, v, refl)

pub change-Runs :
    {W D A : Type 0} (read : W → D) (write : W → D → W) (f : D → A × D) → Runs (change read write f)
unfolding change
change-Runs read write f w = (_, _, refl)

pub pure-Runs : {W A : Type 0} (a : A) → Runs {W = W} (pure a)
pure-Runs a w = (a, w, refl)
