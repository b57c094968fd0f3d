-- ===== src/Storage/Access.antt =====
-- Parts of a JSON value as the readers of store/ui.persistence.ts take them, and their inverses.
use klustr.Prelude.{◌≡◌, refl, ap, String, Option, none, some, List, [], ◌∷◌, ◌==◌, if◌then◌else◌}
use klustr.Dict.{Dict}
use klustr.Storage.{Json, str, arr, Items, nil, cons, Fields, end, field}

-- `list.filter((v) => typeof v === 'string')`
unfoldable pub strings_of : Items → List String
strings_of nil = []
strings_of (cons (str s) js) = s ∷ strings_of js
strings_of (cons _ js) = strings_of js

-- `o.key`
unfoldable pub member : String → Fields → Option Json
member key end = none
member key (field k v fs) = if k == key then some v else member key fs

unfoldable pub items_of_strings : List String → Items
items_of_strings [] = nil
items_of_strings (x ∷ xs) = cons (str x) (items_of_strings xs)

unfoldable pub fields_of_lists : Dict (List String) → Fields
unfolding items_of_strings
fields_of_lists [] = end
fields_of_lists ((k, xs) ∷ m) = field k (arr (items_of_strings xs)) (fields_of_lists m)

pub strings_of-items_of_strings : (xs : List String) → strings_of (items_of_strings xs) ≡ xs
unfolding strings_of items_of_strings
strings_of-items_of_strings [] = refl
strings_of-items_of_strings (x ∷ xs) = ap (λ ys. x ∷ ys) (strings_of-items_of_strings xs)
