-- ===== src/WebFavorites/Interleavings.antt =====
-- Mutations that overlap: no listing stands twice.
use real_estate_platform.Base.{
  ℕ, ◌≡◌, refl, Bool, true, false, not, List, [], ◌∷◌, ◌++◌, Option, none, some, String, ◌==◌,
  includes, distinct, distinct-keep, distinct-dedupe, All, Bool-cases, inl, inr, arith,
}
use real_estate_platform.WebFavorites.{
  FavoritesState, Answer, Waiting, adding, removing, initial, begin_add, begin_remove, ask, settle,
  set_all, clear, finish_sync, set_has_hydrated, reload,
}

-- What waits for the server: a removal holds listings of which none stands twice.
abbrev pub IsRestorable : Waiting → Type 0
IsRestorable (adding id) = Unit {0}
IsRestorable (removing id snapshot) = distinct snapshot ≡ true

abbrev pub enqueue : Option Waiting → List Waiting → List Waiting
enqueue none ws = ws
enqueue (some w) ws = w ∷ ws

-- The store and what waits; any that waits may settle, whatever came after it.
pub record Page : Type 0 where
  pub state : FavoritesState
  pub waiting : List Waiting

abbrev at : FavoritesState × Option Waiting → List Waiting → Page
at (s, w) ws = record { state = s; waiting = enqueue w ws }

pub data Step : Page → Page → Type 0 where
  adds :
      (g : Page) (authenticated : Bool) (id : String)
      → Step g (at (begin_add authenticated id g.state) g.waiting)
  removes :
      (g : Page) (authenticated : Bool) (id : String)
      → Step g (at (begin_remove authenticated id g.state) g.waiting)
  settles :
      (s : FavoritesState) (before after : List Waiting) (w : Waiting) (a : Answer)
      → Step
          (record { state = s; waiting = before ++ w ∷ after })
          (record { state = (settle w a s).0; waiting = before ++ after })
  sets : (g : Page) (ids : List String) → Step g (record g { state = set_all ids g.state })
  clears : (g : Page) → Step g (record g { state = clear g.state })
  syncs :
      (g : Page) (local server : List String) (now : ℕ)
      → Step g (record g { state = finish_sync local server now g.state })
  marks : (g : Page) (b : Bool) → Step g (record g { state = set_has_hydrated b g.state })
  reloads : (g : Page) → Step g (record { state = reload g.state; waiting = [] })

pub data Reached : Page → Type 0 where
  begins : Reached (record { state = initial; waiting = [] })
  steps_to : {g h : Page} → Reached g → Step g h → Reached h

pub record IsSound (g : Page) : Type 0 where
  pub ids : distinct g.state.ids ≡ true
  pub waiting : All IsRestorable g.waiting

at-IsSound :
    (r : FavoritesState × Option Waiting) (ws : List Waiting)
    → distinct r.0.ids ≡ true
    → All IsRestorable (enqueue r.1 [])
    → All IsRestorable ws
    → IsSound (at r ws)
at-IsSound (s, none) ws d h k = record { ids = d; waiting = k }
at-IsSound (s, some w) ws d h k = record { ids = d; waiting = (h.0, k) }

add-IsSound :
    (b : Bool) (id : String) (s : FavoritesState)
    → distinct s.ids ≡ true
    → (distinct (begin_add b id s).0.ids ≡ true)
      × All IsRestorable (enqueue (begin_add b id s).1 [])
unfolding begin_add ask
add-IsSound b id s d = elim (Bool-cases (includes s.ids id)) [
  | inl there ↦ rw there (d, tt)
  | inr new ↦ go b new
]
  where
    go :
        (b : Bool)
        → includes s.ids id ≡ false
        → (distinct (begin_add b id s).0.ids ≡ true)
          × All IsRestorable (enqueue (begin_add b id s).1 [])
    go true new = rw new (rw new d, (tt, tt))
    go false new = rw new (rw new d, tt)

remove-IsSound :
    (b : Bool) (id : String) (s : FavoritesState)
    → distinct s.ids ≡ true
    → (distinct (begin_remove b id s).0.ids ≡ true)
      × All IsRestorable (enqueue (begin_remove b id s).1 [])
unfolding begin_remove ask
remove-IsSound b id s d = elim (Bool-cases (includes s.ids id)) [
  | inl there ↦ go b there
  | inr missing ↦ rw missing (d, tt)
]
  where
    go :
        (b : Bool)
        → includes s.ids id ≡ true
        → (distinct (begin_remove b id s).0.ids ≡ true)
          × All IsRestorable (enqueue (begin_remove b id s).1 [])
    go true there = rw there (distinct-keep _ s.ids d, (d, tt))
    go false there = rw there (distinct-keep _ s.ids d, tt)

settle-distinct :
    (w : Waiting) (a : Answer) (s : FavoritesState)
    → IsRestorable w
    → distinct s.ids ≡ true
    → distinct (settle w a s).0.ids ≡ true
unfolding settle
settle-distinct (adding id) a s h d = ground (arith, distinct-keep (λ x. not (x == id)) s.ids)
settle-distinct (removing id snapshot) a s h d = ground arith

All-remove :
    (before after : List Waiting) (w : Waiting)
    → All IsRestorable (before ++ w ∷ after)
    → IsRestorable w × All IsRestorable (before ++ after)
All-remove [] after w h = (h.0, h.1)
All-remove (v ∷ before) after w h =
    let (sound, rest) = All-remove before after w h.1 in (sound, (h.0, rest))

Step-IsSound : {g h : Page} → Step g h → IsSound g → IsSound h
unfolding set_all clear finish_sync reload set_has_hydrated
Step-IsSound (adds g b id) i =
    let (d, h) = add-IsSound b id g.state i.ids in
    at-IsSound (begin_add b id g.state) g.waiting d h i.waiting
Step-IsSound (removes g b id) i =
    let (d, h) = remove-IsSound b id g.state i.ids in
    at-IsSound (begin_remove b id g.state) g.waiting d h i.waiting
Step-IsSound (settles s before after w a) i =
    let (sound, rest) = All-remove before after w i.waiting in
    record { ids = settle-distinct w a s sound i.ids; waiting = rest }
Step-IsSound (sets g ids) i = record { ids = distinct-dedupe ids; waiting = i.waiting }
Step-IsSound (clears g) i = record { ids = refl; waiting = i.waiting }
Step-IsSound (syncs g local server now) i = record { ids = distinct-dedupe _; waiting = i.waiting }
Step-IsSound (reloads g) i = record { ids = i.ids; waiting = tt }
Step-IsSound (marks g b) i = record { ids = i.ids; waiting = i.waiting }

-- However calls, answers of the server and reloads of the page come, no listing stands twice among the
-- favourites, nor among those that a removal would put back.
pub Reached-IsSound : {g : Page} → Reached g → IsSound g
Reached-IsSound begins = record { ids = refl; waiting = tt }
Reached-IsSound (steps_to r s) = Step-IsSound s (Reached-IsSound r)
