-- ===== src/AccessReview/Matrix/Exact.antt =====
-- features/accessreview/AccessReviewView.tsx: the rows of the matrix say what the rules say.
use Prim.Native.String as Str
use klustr.Prelude.{
  eqb, length, String, ◌≡◌, refl, sym, ap, ◌∙◌, Bool, true, ◌&&◌, ◌||◌, some, List, [], ◌∷◌, arith,
  ◌==◌, eq_iff, Bool-cases, inl, inr, map, any, includes, Distinct, All,
}
use klustr.Dict
use klustr.Dict.{Dict, get_of_absent}
use klustr.Collation.{Collation}
use klustr.AccessReview.Matrix.{
  SubjectAccessRule, EffectiveCell, MatrixRow, verb_columns, row_key, target_key, groups_or_core,
  resources_or_urls, resources_of, for_rules, values, row_le, insert_row, sort_rows,
  build_matrix_rows,
}
use klustr.AccessReview.Matrix.Cells.{
  grants, IsCollected, granted-IsCollected, wildcard-IsCollected, names-IsCollected,
}
use klustr.AccessReview.Matrix.Grants.{covers, seen_at, seen-for_rules}
use klustr.AccessReview.Matrix.Rows.{
  for_rules_keeps, Keyed, Keyed-touch, Distinct-touch, includes-keys-for_rules,
}

-- What the rules say of a row's target, verb by verb.
pub record IsExact (rules : List SubjectAccessRule) (row : MatrixRow) : Type 0 where
  pub granted :
      (v : String)
      → includes v verb_columns ≡ true
      → (row.cells v).granted ≡ any (λ rule. covers rule (row_key row) && grants rule v) rules
  pub wildcard :
      (v : String)
      → includes v verb_columns ≡ true
      → (row.cells v).wildcard
        ≡ any (λ rule. covers rule (row_key row) && includes "*" rule.verbs) rules
  pub names :
      (v rn : String)
      → includes v verb_columns ≡ true
      → includes rn (row.cells v).resource_names
        ≡ any
            (λ rule.
              covers rule (row_key row) && (includes rn rule.resource_names && grants rule v))
            rules

-- `${scope}|${group}|${resource}`
abbrev joined : String → String → String → String
joined scope group resource = Str.◌++◌ scope (Str.◌++◌ "|" (Str.◌++◌ group (Str.◌++◌ "|" resource)))

-- The rule names a resource or, without resources, a URL that has the key with the group.
abbrev names_in_group : SubjectAccessRule → String → String → Bool
names_in_group rule key group =
    any (λ res. joined rule.scope group res == key) rule.resources
    || (eqb (length rule.resources) 0
        && any (λ url. joined rule.scope group url == key) rule.non_resource_urls)

-- What the rule is about, from its fields.
abbrev pub is_about : SubjectAccessRule → String → Bool
is_about rule key =
    any (names_in_group rule key) rule.api_groups
    || (eqb (length rule.api_groups) 0 && names_in_group rule key "")

any-groups_or_core :
    (p : String → Bool) (gs : List String)
    → any p (groups_or_core gs) ≡ (any p gs || (eqb (length gs) 0 && p ""))
any-groups_or_core p [] = ground arith
any-groups_or_core p (g ∷ gs) = ground arith

any-resources_or_urls :
    (p : String → Bool) (rs urls : List String)
    → any p (resources_or_urls rs urls) ≡ (any p rs || (eqb (length rs) 0 && any p urls))
any-resources_or_urls p [] urls = ground arith
any-resources_or_urls p (r ∷ rs) urls = ground arith

any-same :
    (p q : String → Bool) (xs : List String) → ((x : String) → p x ≡ q x) → any p xs ≡ any q xs
any-same p q [] h = refl
any-same p q (x ∷ xs) h = ground (arith, h x, any-same p q xs h)

covers-eq-is_about : (rule : SubjectAccessRule) (key : String) → covers rule key ≡ is_about rule key
unfolding target_key
covers-eq-is_about rule key =
    any-same (λ g. any (λ res. target_key rule.scope g res == key) (resources_of rule))
      (names_in_group rule key) (groups_or_core rule.api_groups)
      (λ g.
        any-resources_or_urls (λ res. target_key rule.scope g res == key) rule.resources
          rule.non_resource_urls)
    ∙ any-groups_or_core (names_in_group rule key) rule.api_groups

any-covers :
    (rules : List SubjectAccessRule) (key : String)
    → any (λ rule. covers rule key) rules ≡ any (λ rule. is_about rule key) rules
any-covers [] key = refl
any-covers (rule ∷ rules) key = ground (arith, covers-eq-is_about rule key, any-covers rules key)

module _ (rules : List SubjectAccessRule) where
  abbrev filled : Dict MatrixRow
  filled = for_rules rules []

  seen-row :
      (obs : EffectiveCell → Bool) (u : String) (adds : SubjectAccessRule → Bool) (row : MatrixRow)
      → IsCollected obs adds u
      → Dict.get filled (row_key row) ≡ some row
      → obs (row.cells u) ≡ any (λ rule. covers rule (row_key row) && adds rule) rules
  seen-row obs u adds row collected found =
      ap (seen_at obs u) (sym found)
      ∙ seen-for_rules obs u adds collected rules [] (row_key row)
      ∙ (unfold Dict.get in ground arith)

  IsExact-row : (row : MatrixRow) → Dict.get filled (row_key row) ≡ some row → IsExact rules row
  IsExact-row row found = record {
    granted = λ v c. seen-row (λ cell. cell.granted) v _ row (granted-IsCollected v c) found;
    wildcard = λ v c. seen-row (λ cell. cell.wildcard) v _ row (wildcard-IsCollected v c) found;
    names = λ v rn c.
        seen-row (λ cell. includes rn cell.resource_names) v _ row (names-IsCollected v c rn) found;
  }

-- Each row of a map stands under its own key.
All-values :
    (P : MatrixRow → Type 0) (m : Dict MatrixRow)
    → Distinct (Dict.keys m)
    → Keyed m
    → ((row : MatrixRow) → Dict.get m (row_key row) ≡ some row → P row)
    → All P (values m)
unfolding values Dict.get Dict.keys
All-values P [] d k h = tt
All-values P ((j, row) ∷ m) (new, d) (e, k) h = (
  h row (ground (arith, eq_iff j (row_key row))),
  All-values P m d k (λ r found. h r (ground (arith, eq_iff j (row_key r), get_of_absent m j))),
)

module _ (coll : Collation) where
  All-insert_row :
      (P : MatrixRow → Type 0) (row : MatrixRow) (rows : List MatrixRow)
      → P row
      → All P rows
      → All P (insert_row coll row rows)
  unfolding insert_row
  All-insert_row P row [] h hs = (h, tt)
  All-insert_row P row (x ∷ rows) h (hx, hs) = elim (Bool-cases (row_le coll row x)) [
    | inl before ↦ rw before (h, (hx, hs))
    | inr after ↦ rw after (hx, All-insert_row P row rows h hs)
  ]

  All-sort_rows :
      (P : MatrixRow → Type 0) (rows : List MatrixRow) → All P rows → All P (sort_rows coll rows)
  unfolding sort_rows
  All-sort_rows P [] h = tt
  All-sort_rows P (row ∷ rows) (h, hs) =
      All-insert_row P row (sort_rows coll rows) h (All-sort_rows P rows hs)

  -- Every cell of the matrix is granted exactly when some rule about the row's target has the verb or
  -- `*`, is marked as a wildcard exactly when some such rule has `*`, and carries exactly the
  -- resource names of the rules that grant it.
  pub build_matrix_rows-IsExact :
      (rules : List SubjectAccessRule) → All (IsExact rules) (build_matrix_rows coll rules)
  unfolding build_matrix_rows
  build_matrix_rows-IsExact rules = All-sort_rows (IsExact rules) (values (filled rules)) (
      All-values (IsExact rules) (filled rules)
        (for_rules_keeps (λ m. Distinct (Dict.keys m)) Distinct-touch rules []
          (unfold Dict.keys in tt))
        (for_rules_keeps Keyed Keyed-touch rules [] tt) (IsExact-row rules))

  includes-map-insert_row :
      (key : String) (row : MatrixRow) (rows : List MatrixRow)
      → includes key (map row_key (insert_row coll row rows))
        ≡ (row_key row == key || includes key (map row_key rows))
  unfolding insert_row includes
  includes-map-insert_row key row [] = refl
  includes-map-insert_row key row (x ∷ rows) = elim (Bool-cases (row_le coll row x)) [
    | inl before ↦ rw before refl
    | inr after ↦ rw after (ground (arith, includes-map-insert_row key row rows))
  ]

  includes-map-sort_rows :
      (key : String) (rows : List MatrixRow)
      → includes key (map row_key (sort_rows coll rows)) ≡ includes key (map row_key rows)
  unfolding sort_rows includes
  includes-map-sort_rows key [] = refl
  includes-map-sort_rows key (row ∷ rows) =
      includes-map-insert_row key row (sort_rows coll rows)
      ∙ ap (λ b. row_key row == key || b) (includes-map-sort_rows key rows)

  map-row_key-values : (m : Dict MatrixRow) → Keyed m → map row_key (values m) ≡ Dict.keys m
  unfolding values Dict.keys
  map-row_key-values [] k = refl
  map-row_key-values ((j, row) ∷ m) (e, k) = cc (map-row_key-values m k)

  -- The matrix has a row under a key exactly when some rule is about it: the key is the rule's scope, one
  -- of its groups and one of its resources with bars between them; a rule without groups is about the
  -- empty group, and one without resources is about its URLs.
  pub includes-build_matrix_rows :
      (rules : List SubjectAccessRule) (key : String)
      → includes key (map row_key (build_matrix_rows coll rules))
        ≡ any (λ rule. is_about rule key) rules
  unfolding build_matrix_rows
  includes-build_matrix_rows rules key =
      includes-map-sort_rows key (values (filled rules))
      ∙ ap (includes key)
          (map-row_key-values (filled rules) (for_rules_keeps Keyed Keyed-touch rules [] tt))
      ∙ includes-keys-for_rules rules [] key
      ∙ (unfold Dict.keys in unfold includes in any-covers rules key)
