-- ===== src/WebFavorites/Rollback.antt =====
-- A mutation that the server refuses is taken back.
use real_estate_platform.Base.{
  ◌≡◌, refl, sym, ap, ◌∙◌, Bool, true, false, some, String, eq_refl, includes, includes-keep,
  some-injective, subst, without_of_not_includes, Bool-cases, inl, inr,
}
use real_estate_platform.WebFavorites.{
  FavoritesState, Answer, done, Waiting, adding, removing, begin_add, begin_remove, ask, settle,
  is_status, is_done, begin_toggle,
}

-- An answer that is a failure: neither done nor a status that means "as wanted already".
pub record IsFailure (a : Answer) : Type 0 where
  pub not_done : is_done a ≡ false
  pub not_saved_already : is_status 409 a ≡ false
  pub not_gone_already : is_status 404 a ≡ false

added-back :
    (id : String) (s : FavoritesState) (a : Answer)
    → IsFailure a
    → includes s.ids id ≡ false
    → ((settle (adding id) a (begin_add true id s).0).0.ids ≡ s.ids)
      × ((settle (adding id) a (begin_add true id s).0).1 ≡ false)
unfolding settle begin_add ask
added-back id s a f new =
    rw (f.not_done, f.not_saved_already, new, eq_refl id)
      (without_of_not_includes s.ids id new, refl)

removed-back :
    (id : String) (s : FavoritesState) (a : Answer)
    → IsFailure a
    → ((settle (removing id s.ids) a (begin_remove true id s).0).0.ids ≡ s.ids)
      × ((settle (removing id s.ids) a (begin_remove true id s).0).1 ≡ false)
unfolding settle
removed-back id s a f = rw (f.not_done, f.not_gone_already) (refl, refl)

waits-add :
    (id : String) (s : FavoritesState)
    → includes s.ids id ≡ false
    → (begin_add true id s).1 ≡ some (adding id)
unfolding begin_add ask
waits-add id s new = rw new refl

waits-remove :
    (id : String) (s : FavoritesState)
    → includes s.ids id ≡ true
    → (begin_remove true id s).1 ≡ some (removing id s.ids)
unfolding begin_remove ask
waits-remove id s there = rw there refl

-- Where nothing comes between, a toggle of a signed-in user that the server refuses leaves the listings
-- as they were and answers false to the mutation.
failed_toggle-restores :
    (id : String) (s s' : FavoritesState) (w : Waiting) (b : Bool) (a : Answer)
    → begin_toggle true id s ≡ ((s', some w), b)
    → IsFailure a
    → ((settle w a s').0.ids ≡ s.ids) × ((settle w a s').1 ≡ false)
unfolding begin_toggle
failed_toggle-restores id s s' w b a e f = elim (Bool-cases (includes s.ids id)) [
  | inl there ↦
      let began = rw there at e in
      let same = some-injective (sym (waits-remove id s there) ∙ ap (λ r. r.0.1) began) in
      subst (λ v. ((settle v a s').0.ids ≡ s.ids) × ((settle v a s').1 ≡ false)) same
        (subst
          (λ t.
            ((settle (removing id s.ids) a t).0.ids ≡ s.ids)
            × ((settle (removing id s.ids) a t).1 ≡ false))
          (ap (λ r. r.0.0) began) (removed-back id s a f))
  | inr new ↦
      let began = rw new at e in
      let same = some-injective (sym (waits-add id s new) ∙ ap (λ r. r.0.1) began) in
      subst (λ v. ((settle v a s').0.ids ≡ s.ids) × ((settle v a s').1 ≡ false)) same
        (subst
          (λ t. ((settle (adding id) a t).0.ids ≡ s.ids) × ((settle (adding id) a t).1 ≡ false))
          (ap (λ r. r.0.0) began) (added-back id s a f new))
]

-- A removal begins, then another listing is added and the server accepts it.
abbrev pub added_meanwhile : String → String → FavoritesState → FavoritesState
added_meanwhile id other s =
    (settle (adding other) done (begin_add true other (begin_remove true id s).0).0).0

added_last :
    (other : String) (s : FavoritesState)
    → includes s.ids other ≡ false
    → includes (settle (adding other) done (begin_add true other s).0).0.ids other ≡ true
unfolding settle begin_add ask
added_last other s new = rw (new, eq_refl other) refl

still_new :
    (id other : String) (s : FavoritesState)
    → includes s.ids other ≡ false
    → includes (begin_remove true id s).0.ids other ≡ false
unfolding begin_remove ask
still_new id other s new = elim (Bool-cases (includes s.ids id)) [
  | inl there ↦ rw there (includes-keep _ s.ids other new)
  | inr missing ↦ rw missing new
]

put_back :
    (id : String) (s t : FavoritesState) (a : Answer)
    → IsFailure a
    → (settle (removing id s.ids) a t).0.ids ≡ s.ids
unfolding settle
put_back id s t a f = rw (f.not_done, f.not_gone_already) refl

-- A listing that is added, and accepted by the server, while the removal of another waits is among the
-- favourites until that removal fails, and then it is not.
pub rollback-loses :
    (id other : String) (s : FavoritesState) (a : Answer)
    → includes s.ids id ≡ true
    → includes s.ids other ≡ false
    → IsFailure a
    → ((begin_remove true id s).1 ≡ some (removing id s.ids))
      × (includes (added_meanwhile id other s).ids other ≡ true)
      × (includes (settle (removing id s.ids) a (added_meanwhile id other s)).0.ids other ≡ false)
rollback-loses id other s a there new f = (
  waits-remove id s there,
  added_last other (begin_remove true id s).0 (still_new id other s new),
  ap (λ ids. includes ids other) (put_back id s (added_meanwhile id other s) a f) ∙ new,
)
