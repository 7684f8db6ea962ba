-- ===== src/WebFavorites/Tests.antt =====
-- Favourites of a page with two listings.
use real_estate_platform.Base.{◌≡◌, refl, true, false, [], ◌∷◌, some, none, includes}
use real_estate_platform.WebFavorites.{
  FavoritesState, done, refused, adding, removing, initial, begin_add, begin_remove, ask, settle,
  set_pending, begin_toggle, finish_sync,
}
use real_estate_platform.WebFavorites.Interleavings.{
  Reached, Page, begins, steps_to, adds, settles, IsSound, Reached-IsSound,
}
use real_estate_platform.WebFavorites.Rollback.{IsFailure, added_meanwhile, rollback-loses}

mutations : Unit {0}
unfolding begin_add begin_remove ask settle set_pending begin_toggle finish_sync
mutations = tt

abbrev two : FavoritesState
two = record { ids = "p1" ∷ "p2" ∷ []; pending = []; has_hydrated = true; last_synced_at = none }

abbrev without_one : FavoritesState
without_one = record two { ids = "p2" ∷ []; pending = "p1" ∷ [] }

began : begin_toggle true "p1" two ≡ ((without_one, some (removing "p1" ("p1" ∷ "p2" ∷ []))), false)
unfolding mutations
began = refl

server_error : IsFailure (refused 500)
server_error = record { not_done = refl; not_saved_already = refl; not_gone_already = refl }

rollback-loses_example :
    ((begin_remove true "p1" two).1 ≡ some (removing "p1" two.ids))
    × (includes (added_meanwhile "p1" "p3" two).ids "p3" ≡ true)
    × (includes
          (settle (removing "p1" two.ids) (refused 500) (added_meanwhile "p1" "p3" two)).0.ids
          "p3"
        ≡ false)
rollback-loses_example = rollback-loses "p1" "p3" two (refused 500) refl refl server_error

abbrev blank : Page
blank = record { state = initial; waiting = [] }

abbrev asked : Page
asked = record {
  state = record initial { ids = "p1" ∷ []; pending = "p1" ∷ [] };
  waiting = adding "p1" ∷ [];
}

abbrev answered : Page
answered = record { state = record initial { ids = "p1" ∷ [] }; waiting = [] }

asked-Reached : Reached asked
unfolding mutations
asked-Reached = steps_to {g = blank} {h = asked} begins (adds blank true "p1")

answered-Reached : Reached answered
unfolding mutations
answered-Reached =
    steps_to {g = asked} {h = answered} asked-Reached (settles asked.state [] [] (adding "p1") done)

Reached-IsSound_example : IsSound answered
Reached-IsSound_example = Reached-IsSound answered-Reached
