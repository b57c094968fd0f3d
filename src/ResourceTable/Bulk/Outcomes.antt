-- ===== src/ResourceTable/Bulk/Outcomes.antt =====
-- features/_shared/BulkActionDialogs.tsx: `runAll` accounts for every item.
use klustr.Prelude.{
  ℕ, suc, ◌+◌, ◌≡◌, refl, sym, ap, ◌∙◌, none, some, List, [], ◌∷◌, ◌++◌, arith, map, length,
  get_elem?, length-append,
}
use mathlib.Core.List.{append_assoc, append-nil}
use klustr.ResourceTable.Bulk.{Settled, Failure, Outcome, tally_one, tally, run_all}

module _ {T : Type 0} (op : T → Settled) where
  -- The items whose operation failed, with its error.
  abbrev failure_of : T → Settled → List (Failure T) → List (Failure T)
  failure_of item none rest = rest
  failure_of item (some err) rest = record { item = some item; err = err } ∷ rest

  abbrev pub failures : List T → List (Failure T)
  failures [] = []
  failures (item ∷ items) = failure_of item (op item) (failures items)

  abbrev success_of : Settled → ℕ → ℕ
  success_of none n = suc n
  success_of (some err) n = n

  abbrev pub successes : List T → ℕ
  successes [] = 0
  successes (item ∷ items) = success_of (op item) (successes items)

  get_elem?-append :
      (before : List T) (x : T) (after : List T)
      → get_elem? (before ++ x ∷ after) (length before) ≡ some x
  get_elem?-append [] x after = refl
  get_elem?-append (y ∷ before) x after = get_elem?-append before x after

  -- One more result of an item, its place known, goes to the front of what is still to be counted.
  tally_one_lem :
      (every : List T) (x : T) (r : Settled) (idx n : ℕ) (rest : List (Failure T)) (out : Outcome T)
      → get_elem? every idx ≡ some x
      → ◌≡◌ {A = Outcome T}
          (record {
            ok = (tally_one every r idx out).ok + n;
            failed = (tally_one every r idx out).failed ++ rest;
          })
          (record { ok = out.ok + success_of r n; failed = out.failed ++ failure_of x r rest })
  tally_one_lem every x none idx n rest out at = ground arith
  tally_one_lem every x (some err) idx n rest out at =
      ground (
        arith,
        append_assoc out.failed (record { item = get_elem? every idx; err = err } ∷ []) rest,
      )

  tally_lem :
      (every before items : List T) (out : Outcome T)
      → every ≡ before ++ items
      → tally every (map op items) (length before) out
        ≡ record { ok = out.ok + successes items; failed = out.failed ++ failures items }
  unfolding tally
  tally_lem every before [] out e = ground (arith, append-nil out.failed)
  tally_lem every before (x ∷ items) out e =
      let out' = tally_one every (op x) (length before) out in
      ap (λ (n : ℕ). tally every (map op items) n out') (sym (length-append before (x ∷ [])))
      ∙ tally_lem every (before ++ x ∷ []) items out' (e ∙ sym (append_assoc before (x ∷ []) items))
      ∙ tally_one_lem every x (op x) (length before) (successes items) (failures items) out
          (ap (λ (all : List T). get_elem? all (length before)) e ∙ get_elem?-append before x items)

  successes-failures : (items : List T) → successes items + length (failures items) ≡ length items
  successes-failures [] = omega arith
  successes-failures (x ∷ items) = step (op x) (successes-failures items)
    where
      step :
          (r : Settled) (ih : successes items + length (failures items) ≡ length items)
          → success_of r (successes items) + length (failure_of x r (failures items))
            ≡ suc (length items)
      step none ih = omega arith
      step (some err) ih = omega arith

  -- Every item of a bulk action is counted once, as a success or among the failures; the failures are
  -- exactly the items whose operation failed, in their order, each with its own error.
  pub run_all_lem :
      (items : List T)
      → ((run_all items op).failed ≡ failures items)
        × ((run_all items op).ok + length (run_all items op).failed ≡ length items)
  unfolding run_all
  run_all_lem items =
      let result = tally_lem items [] items (record { ok = 0; failed = [] }) refl in
      (
        ap (λ (o : Outcome T). o.failed) result,
        rw result (ground (arith, successes-failures items)),
      )
