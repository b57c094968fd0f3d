-- ===== src/AccessReview/Subjects/Laws.antt =====
-- features/accessreview/AccessReviewView.tsx: the subjects to choose from are those of the contexts.
use klustr.Prelude.{
  String, ◌≡◌, refl, sym, ap, ◌∙◌, Bool, ◌||◌, List, [], ◌∷◌, ◌++◌, arith, ◌==◌, eq_iff,
  if◌then◌else◌, or_else, keep, any, All, map, includes, Bool-cases, inl, inr,
}
use mathlib.Core.List.{append_assoc, append-nil}
use klustr.Dict
use klustr.Dict.{Dict, get-put, includes-keys-put}
use klustr.Collation.{Collation}
use klustr.AccessReview.Subjects.{
  AccessSubject, subject_key, see_all, see_contexts, subject_values, sort_subjects, insert_subject,
  subject_le, subject_options, SubjectGroup, bucket, fill_buckets, with_group, groups_in,
  kind_order, group_subjects,
}

bucket-fill_buckets :
    (ss : List AccessSubject) (m : Dict (List AccessSubject)) (kind : String)
    → bucket (fill_buckets ss m) kind ≡ bucket m kind ++ keep (λ s. s.kind == kind) ss
unfolding fill_buckets
bucket-fill_buckets [] m kind = sym (append-nil (bucket m kind))
bucket-fill_buckets (s ∷ ss) m kind =
    let v = bucket m s.kind ++ s ∷ [] in
    ground (
      arith,
      bucket-fill_buckets ss (Dict.put m s.kind v) kind,
      get-put m s.kind kind v,
      append_assoc (bucket m kind) (s ∷ []) (keep (λ (s : AccessSubject). s.kind == kind) ss),
      eq_iff s.kind kind,
    )

-- The items under a kind in the list of groups.
abbrev pub items_of : List SubjectGroup → String → List AccessSubject
items_of [] kind = []
items_of (g ∷ gs) kind = if g.kind == kind then g.items else items_of gs kind

items_of-with_group :
    (m : Dict (List AccessSubject)) (k kind : String) (there : Bool) (items : List AccessSubject)
    (rest : List SubjectGroup)
    → bucket m k ≡ items
    → items_of rest kind ≡ (if there then bucket m kind else [])
    → items_of (with_group k items rest) kind ≡ (if k == kind || there then bucket m kind else [])
items_of-with_group m k kind there [] rest e h = ground (arith, eq_iff k kind)
items_of-with_group m k kind there (s ∷ ss) rest e h = ground (arith, eq_iff k kind)

items_of-groups_in :
    (m : Dict (List AccessSubject)) (order : List String) (kind : String)
    → items_of (groups_in m order) kind ≡ (if includes kind order then bucket m kind else [])
unfolding groups_in includes
items_of-groups_in m [] kind = refl
items_of-groups_in m (k ∷ order) kind =
    items_of-with_group m k kind (includes kind order) (bucket m k) (groups_in m order) refl
      (items_of-groups_in m order kind)

-- The subjects are offered under their kind, in their order, as long as it is one of the three kinds.
pub items_of-group_subjects :
    (options : List AccessSubject) (kind : String)
    → items_of (group_subjects options) kind
      ≡ (if includes kind kind_order then keep (λ s. s.kind == kind) options else [])
unfolding group_subjects
items_of-group_subjects options kind =
    items_of-groups_in (fill_buckets options []) kind_order kind
    ∙ ap (λ items. if includes kind kind_order then items else [])
        (bucket-fill_buckets options [] kind ∙ (unfold Dict.get in refl))

includes-keys-see_all :
    (ss : List AccessSubject) (m : Dict AccessSubject) (key : String)
    → includes key (Dict.keys (see_all ss m))
      ≡ (includes key (Dict.keys m) || any (λ s. subject_key s == key) ss)
unfolding see_all
includes-keys-see_all [] m key = ground arith
includes-keys-see_all (s ∷ ss) m key = ground (
  arith,
  includes-keys-see_all ss (Dict.put m (subject_key s) s) key,
  includes-keys-put m (subject_key s) key s,
)

includes-keys-see_contexts :
    (subjects : Dict (List AccessSubject)) (active : List String) (m : Dict AccessSubject)
    (key : String)
    → includes key (Dict.keys (see_contexts subjects active m)) ≡ (
        includes key (Dict.keys m)
        || any (λ ctx. any (λ s. subject_key s == key) (or_else (Dict.get subjects ctx) [])) active)
unfolding see_contexts
includes-keys-see_contexts subjects [] m key = ground arith
includes-keys-see_contexts subjects (ctx ∷ active) m key =
    let list = or_else (Dict.get subjects ctx) [] in
    ground (
      arith,
      includes-keys-see_contexts subjects active (see_all list m) key,
      includes-keys-see_all list m key,
    )

abbrev Keyed : Dict AccessSubject → Type 0
Keyed m = All (λ (e : String × AccessSubject). subject_key e.1 ≡ e.0) m

Keyed-put :
    (m : Dict AccessSubject) (s : AccessSubject) → Keyed m → Keyed (Dict.put m (subject_key s) s)
unfolding Dict.put
Keyed-put [] s h = (refl, tt)
Keyed-put ((j, r) ∷ m) s (h, hs) = elim (Bool-cases (j == subject_key s)) [
  | inl same ↦ rw same (refl, hs)
  | inr other ↦ rw other (h, Keyed-put m s hs)
]

Keyed-see_all : (ss : List AccessSubject) (m : Dict AccessSubject) → Keyed m → Keyed (see_all ss m)
unfolding see_all
Keyed-see_all [] m h = h
Keyed-see_all (s ∷ ss) m h = Keyed-see_all ss _ (Keyed-put m s h)

Keyed-see_contexts :
    (subjects : Dict (List AccessSubject)) (active : List String) (m : Dict AccessSubject)
    → Keyed m
    → Keyed (see_contexts subjects active m)
unfolding see_contexts
Keyed-see_contexts subjects [] m h = h
Keyed-see_contexts subjects (ctx ∷ active) m h =
    Keyed-see_contexts subjects active _ (Keyed-see_all (or_else (Dict.get subjects ctx) []) m h)

map-subject_key-values :
    (m : Dict AccessSubject) → Keyed m → map subject_key (subject_values m) ≡ Dict.keys m
unfolding subject_values Dict.keys
map-subject_key-values [] k = refl
map-subject_key-values ((j, s) ∷ m) (e, k) = cc (map-subject_key-values m k)

module _ (coll : Collation) where
  includes-map-insert_subject :
      (key : String) (s : AccessSubject) (ss : List AccessSubject)
      → includes key (map subject_key (insert_subject coll s ss))
        ≡ (subject_key s == key || includes key (map subject_key ss))
  unfolding insert_subject includes
  includes-map-insert_subject key s [] = refl
  includes-map-insert_subject key s (x ∷ xs) = elim (Bool-cases (subject_le coll s x)) [
    | inl before ↦ rw before refl
    | inr after ↦ rw after (ground (arith, includes-map-insert_subject key s xs))
  ]

  includes-map-sort_subjects :
      (key : String) (ss : List AccessSubject)
      → includes key (map subject_key (sort_subjects coll ss)) ≡ includes key (map subject_key ss)
  unfolding sort_subjects includes
  includes-map-sort_subjects key [] = refl
  includes-map-sort_subjects key (s ∷ ss) =
      includes-map-insert_subject key s (sort_subjects coll ss)
      ∙ ap (λ b. subject_key s == key || b) (includes-map-sort_subjects key ss)

  -- A subject is offered exactly when the list of some active context has it.
  pub includes-subject_options :
      (subjects : Dict (List AccessSubject)) (active : List String) (key : String)
      → includes key (map subject_key (subject_options coll subjects active))
        ≡ any (λ ctx. any (λ s. subject_key s == key) (or_else (Dict.get subjects ctx) [])) active
  unfolding subject_options
  includes-subject_options subjects active key =
      includes-map-sort_subjects key (subject_values (see_contexts subjects active []))
      ∙ ap (includes key) (
          map-subject_key-values (see_contexts subjects active [])
            (Keyed-see_contexts subjects active [] tt))
      ∙ includes-keys-see_contexts subjects active [] key
      ∙ (unfold Dict.keys in unfold includes in ground arith)
