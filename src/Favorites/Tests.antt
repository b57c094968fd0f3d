-- ===== src/Favorites/Tests.antt =====
-- The favourites of one context.
use klustr.Prelude.{[]}
use klustr.Dict
use klustr.Dict.{Dict, get}
use klustr.Collation.CodePoints.{code_points}
use klustr.Favorites.{Favorites}
use klustr.Favorites.Laws.{IsOrdered}

abbrev no_favorites : Favorites
no_favorites = []

no_favorites-IsOrdered : IsOrdered code_points no_favorites
unfolding Dict.get
no_favorites-IsOrdered context = (tt, tt)
