-- ===== src/Storage.antt =====
-- The browser's localStorage and the JSON values that the stores keep in it.
pub mod Access
use klustr.Prelude.{ℕ, String, Option, none, some, List, [], ◌∷◌, ◌==◌, if◌then◌else◌}
use klustr.Dict
use klustr.Dict.{Dict}

-- The only numbers that the stores write as JSON are times, which are natural numbers.
mutual
  pub data Json : Type 0 where
    null truth falsity : Json
    num : ℕ → Json
    str : String → Json
    arr : Items → Json
    obj : Fields → Json

  pub data Items : Type 0 where
    nil : Items
    cons : Json → Items → Items

  pub data Fields : Type 0 where
    end : Fields
    field : String → Json → Fields → Fields

-- What a key holds: a text that was stored as it is, or the text `JSON.stringify(j)`. The two kinds
-- of writers are kept apart, so that reading back what was written needs no printer of JSON.
pub data Item : Type 0 where
  text : String → Item
  json : Json → Item

abbrev pub Storage : Type 0
Storage = Dict Item

-- `JSON.parse` on a text from elsewhere (`none` where it throws), and `JSON.stringify`.
pub record JsonText : Type 0 where
  pub parse : String → Option Json
  pub stringify : Json → String

module _ (jt : JsonText) where
  -- `localStorage.getItem(key)`, with a missing key and the empty text told from the others, as
  -- every reader does by `if (!raw)`
  unfoldable pub read_text : Storage → String → Option String
  read_text s key = elim (Dict.get s key) [
    | none ↦ none
    | some (text t) ↦ if t == "" then none else some t
    | some (json j) ↦ some (jt.stringify j)
  ]

  -- `JSON.parse(raw)` in a `try`, where an error has the result of a missing key
  unfoldable pub read_json : Storage → String → Option Json
  read_json s key = elim (Dict.get s key) [
    | none ↦ none
    | some (text t) ↦ if t == "" then none else jt.parse t
    | some (json j) ↦ some j
  ]
