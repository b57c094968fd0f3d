-- ===== src/AccessReview/Tests.antt =====
-- Tests of the access review, and the theorems at concrete inputs.
use klustr.Prelude.{String, none, some, List, any, includes, map, All, refl, ◌≡◌, ◌∷◌, []}
use klustr.AccessReview.Matrix.Exact.{
  is_about, IsExact, build_matrix_rows-IsExact, includes-build_matrix_rows,
}
use klustr.AccessReview.Matrix.Scopes.{scopes}
use klustr.AccessReview.Matrix.{
  MatrixRow, SubjectAccessRule, add_names, apply_verbs, build_matrix_rows, group_by_scope, row_key,
  target_key,
}
use klustr.AccessReview.Subjects.{
  AccessSubject, kind_heading, subject_label, subject_options, verb_label,
}
use klustr.Collation.CodePoints.{code_le, code_points}
use klustr.Dict
use klustr.Dict.{Dict, get, put}

abbrev pods_reader : SubjectAccessRule
pods_reader = record {
  scope = "shop";
  verbs = "get" ∷ "list" ∷ "impersonate" ∷ [];
  api_groups = "" ∷ [];
  resources = "pods" ∷ "pods/log" ∷ [];
  resource_names = "web" ∷ [];
  non_resource_urls = [];
}

abbrev admin : SubjectAccessRule
admin = record {
  scope = "*";
  verbs = "*" ∷ [];
  api_groups = "*" ∷ [];
  resources = "*" ∷ [];
  resource_names = [];
  non_resource_urls = [];
}

abbrev health : SubjectAccessRule
health = record {
  scope = "*";
  verbs = "get" ∷ [];
  api_groups = [];
  resources = [];
  resource_names = [];
  non_resource_urls = "/healthz" ∷ [];
}

abbrev rules : List SubjectAccessRule
rules = pods_reader ∷ health ∷ admin ∷ []

abbrev rows : List MatrixRow
rows = build_matrix_rows code_points rules

-- The cluster's rows come first.
rows_sorted : map row_key rows ≡ "*||/healthz" ∷ "*|*|*" ∷ "shop||pods" ∷ "shop||pods/log" ∷ []
unfolding build_matrix_rows target_key Dict.put Dict.get code_le
rows_sorted = refl

-- Without a restriction to names the verb is still shown as limited to those of another rule.
abbrev all_pods : SubjectAccessRule
all_pods = record pods_reader { resource_names = [] }

abbrev names_of_first : List MatrixRow → List String
names_of_first [] = []
names_of_first (row ∷ more) = (row.cells "get").resource_names

still_limited :
    names_of_first (build_matrix_rows code_points (pods_reader ∷ all_pods ∷ [])) ≡ "web" ∷ []
unfolding build_matrix_rows target_key Dict.put Dict.get code_le includes apply_verbs add_names
still_limited = refl

scopes_in_order : scopes (group_by_scope rows) ≡ "*" ∷ "shop" ∷ []
unfolding group_by_scope build_matrix_rows target_key Dict.put Dict.get code_le
scopes_in_order = refl

abbrev bot : AccessSubject
bot = record { kind = "ServiceAccount"; name = "bot"; namespace = some "shop" }

abbrev ann : AccessSubject
ann = record { kind = "User"; name = "ann"; namespace = none }

abbrev subjects : Dict (List AccessSubject)
subjects = ("prod", ann ∷ bot ∷ []) ∷ ("dev", ann ∷ []) ∷ []

abbrev both : List String
both = "prod" ∷ "dev" ∷ []

options_sorted : subject_options code_points subjects both ≡ bot ∷ ann ∷ []
unfolding subject_options Dict.put Dict.get code_le
options_sorted = refl

bot_label : subject_label bot ≡ "shop/bot"
unfolding subject_label
bot_label = refl

heading_of_two : kind_heading "User" 2 ≡ "Users (2)"
unfolding kind_heading
heading_of_two = refl

short_verb : verb_label "deletecollection" ≡ "del-coll"
unfolding verb_label
short_verb = refl

build_matrix_rows-IsExact_example : All (IsExact rules) (build_matrix_rows code_points rules)
build_matrix_rows-IsExact_example = build_matrix_rows-IsExact code_points rules

includes-build_matrix_rows_example :
    includes "shop||pods" (map row_key (build_matrix_rows code_points rules))
    ≡ any (λ rule. is_about rule "shop||pods") rules
includes-build_matrix_rows_example = includes-build_matrix_rows code_points rules "shop||pods"
