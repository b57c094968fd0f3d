-- ===== src/AccessReview/Subjects.antt =====
-- features/accessreview/AccessReviewView.tsx: the subjects to choose from.
pub mod Laws
use Prim.Native.String as Str
use klustr.Prelude.{
  ℕ, String, Bool, true, false, not, Option, none, some, List, [], ◌∷◌, ◌++◌, ◌==◌, if◌then◌else◌,
  leb, eqb, length, or_else,
}
use klustr.Prelude.Numerals.{decimal}
use klustr.Dict
use klustr.Dict.{Dict}
use klustr.Collation.{Collation}

pub record AccessSubject : Type 0 where
  pub kind : String
  pub name : String
  pub namespace : Option String

-- `s.namespace ?? ''`
abbrev pub namespace_of : AccessSubject → String
namespace_of s = or_else s.namespace ""

unfoldable pub subject_key : AccessSubject → String
subject_key s = Str.◌++◌ s.kind (Str.◌++◌ "|" (Str.◌++◌ (namespace_of s) (Str.◌++◌ "|" s.name)))

-- The inner loop of `subjectOptions`: the last subject with a key takes the first one's place.
unfoldable pub see_all : List AccessSubject → Dict AccessSubject → Dict AccessSubject
unfolding subject_key
see_all [] seen = seen
see_all (s ∷ ss) seen = see_all ss (Dict.put seen (subject_key s) s)

unfoldable pub see_contexts :
    Dict (List AccessSubject) → List String → Dict AccessSubject → Dict AccessSubject
unfolding see_all
see_contexts subjects [] seen = seen
see_contexts subjects (ctx ∷ contexts) seen =
    see_contexts subjects contexts (see_all (or_else (Dict.get subjects ctx) []) seen)

unfoldable pub subject_values : Dict AccessSubject → List AccessSubject
subject_values [] = []
subject_values ((k, s) ∷ m) = s ∷ subject_values m

abbrev pub rank : String → ℕ
rank kind = if kind == "ServiceAccount" then 0 else if kind == "User" then 1 else 2

module _ (coll : Collation) where
  -- `compareSubject`, where it is not positive
  unfoldable pub subject_le : AccessSubject → AccessSubject → Bool
  subject_le a b =
      if not (a.kind == b.kind)
      then leb (rank a.kind) (rank b.kind)
      else if not (namespace_of a == namespace_of b)
      then coll.le (namespace_of a) (namespace_of b)
      else coll.le a.name b.name

  unfoldable pub insert_subject : AccessSubject → List AccessSubject → List AccessSubject
  unfolding subject_le
  insert_subject a [] = a ∷ []
  insert_subject a (x ∷ xs) = if subject_le a x then a ∷ x ∷ xs else x ∷ insert_subject a xs

  -- The sort is stable.
  unfoldable pub sort_subjects : List AccessSubject → List AccessSubject
  unfolding insert_subject
  sort_subjects [] = []
  sort_subjects (x ∷ xs) = insert_subject x (sort_subjects xs)

  unfoldable pub subject_options : Dict (List AccessSubject) → List String → List AccessSubject
  unfolding see_contexts subject_values sort_subjects
  subject_options subjects active = sort_subjects (subject_values (see_contexts subjects active []))

pub record SubjectGroup : Type 0 where
  pub kind : String
  pub items : List AccessSubject

abbrev pub bucket : Dict (List AccessSubject) → String → List AccessSubject
bucket buckets kind = or_else (Dict.get buckets kind) []

unfoldable pub fill_buckets :
    List AccessSubject → Dict (List AccessSubject) → Dict (List AccessSubject)
fill_buckets [] buckets = buckets
fill_buckets (s ∷ ss) buckets =
    fill_buckets ss (Dict.put buckets s.kind (bucket buckets s.kind ++ s ∷ []))

abbrev pub with_group : String → List AccessSubject → List SubjectGroup → List SubjectGroup
with_group kind [] rest = rest
with_group kind (s ∷ ss) rest = record { kind = kind; items = s ∷ ss } ∷ rest

-- `order.filter((k) => buckets[k]?.length).map(...)`
unfoldable pub groups_in : Dict (List AccessSubject) → List String → List SubjectGroup
groups_in buckets [] = []
groups_in buckets (kind ∷ order) = with_group kind (bucket buckets kind) (groups_in buckets order)

abbrev pub kind_order : List String
kind_order = "ServiceAccount" ∷ "User" ∷ "Group" ∷ []

unfoldable pub group_subjects : List AccessSubject → List SubjectGroup
unfolding fill_buckets groups_in
group_subjects options = groups_in (fill_buckets options []) kind_order

unfoldable pub kind_heading : String → ℕ → String
unfolding decimal
kind_heading kind count =
    let noun : String =
      if kind == "ServiceAccount"
      then "Service Accounts"
      else if kind == "User"
      then "Users"
      else "Groups" in
    Str.◌++◌ noun (Str.◌++◌ " (" (Str.◌++◌ (decimal count) ")"))

-- A missing namespace is printed as `undefined`.
unfoldable pub subject_label : AccessSubject → String
subject_label s =
    if s.kind == "ServiceAccount"
    then Str.◌++◌ (or_else s.namespace "undefined") (Str.◌++◌ "/" s.name)
    else s.name

unfoldable pub verb_label : String → String
verb_label v = if v == "deletecollection" then "del-coll" else v
