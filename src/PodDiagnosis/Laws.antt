-- ===== src/PodDiagnosis/Laws.antt =====
-- The number of findings of features/pods/podDiagnosis.ts.
use klustr.Prelude.{
  ℕ, String, ◌≡◌, refl, ◌∙◌, ap, Bool, true, false, not, ◌&&◌, ◌||◌, List, [], ◌∷◌, ◌++◌, ◌==◌, ◌+◌,
  arith, eq_iff, if◌then◌else◌, length, leb, is_some, Option-cases, inl, inr,
}
use klustr.PodDiagnosis.{
  ContainerDetail, PodDetail, ContainerKind, DiagnosisItem, is_stuck, container_issues,
  waiting_issues, terminated_issues, restart_issues, label_of, high_restart_count, find_unscheduled,
  scheduling_issues, issues_of, pod_diagnosis, init, container,
}

-- A container in trouble: it is stuck waiting; or it has terminated for another reason than that it
-- completed; or neither holds, and it was killed for its memory before or has restarted five times.
abbrev pub is_troubled : ContainerDetail → Bool
is_troubled c =
    is_stuck c
    || (c.state == "Terminated"
        && not (c.state_reason == "")
        && not (c.state_reason == "Completed"))
    || (not (c.state == "Terminated" && not (c.state_reason == ""))
        && (c.last_state == "OOMKilled" || leb high_restart_count c.restart_count))

abbrev pub count_troubled : List ContainerDetail → ℕ
count_troubled [] = 0
count_troubled (c ∷ cs) = (if is_troubled c then 1 else 0) + count_troubled cs

abbrev pub is_unplaced : PodDetail → Bool
is_unplaced d = d.phase == "Pending" && is_some (find_unscheduled d.conditions)

length-append : (xs ys : List DiagnosisItem) → length (xs ++ ys) ≡ length xs + length ys
length-append [] ys = omega arith
length-append (x ∷ xs) ys = ground (arith, length-append xs ys)

length-waiting_issues : (c : ContainerDetail) (label : String) → length (waiting_issues c label) ≡ 1
unfolding waiting_issues
length-waiting_issues c label = ground arith

killed-not-completed :
    (reason : String) → (reason == "OOMKilled") ≡ true → (reason == "Completed") ≡ false
killed-not-completed reason e = ap (λ r. r == "Completed") ((eq_iff reason "OOMKilled").0 e)

length-terminated_issues :
    (c : ContainerDetail) (label : String)
    → length (terminated_issues c label) ≡ (if c.state_reason == "Completed" then 0 else 1)
unfolding terminated_issues
length-terminated_issues c label = ground (arith, killed-not-completed c.state_reason)

length-restart_issues :
    (c : ContainerDetail) (label : String)
    → length (restart_issues c label)
      ≡ (if c.last_state == "OOMKilled" || leb high_restart_count c.restart_count then 1 else 0)
unfolding restart_issues
length-restart_issues c label = ground arith

waiting-not-terminated :
    (state : String) → (state == "Waiting") ≡ true → (state == "Terminated") ≡ false
waiting-not-terminated state e = ap (λ r. r == "Terminated") ((eq_iff state "Waiting").0 e)

-- A container has one finding if it is in trouble, and none otherwise.
pub length-container_issues :
    (c : ContainerDetail) (kind : ContainerKind)
    → length (container_issues c kind) ≡ (if is_troubled c then 1 else 0)
unfolding container_issues
length-container_issues c kind = ground (
  arith,
  length-waiting_issues c (label_of kind),
  length-terminated_issues c (label_of kind),
  length-restart_issues c (label_of kind),
  waiting-not-terminated c.state,
)

length-issues_of :
    (cs : List ContainerDetail) (kind : ContainerKind)
    → length (issues_of cs kind) ≡ count_troubled cs
unfolding issues_of
length-issues_of [] kind = refl
length-issues_of (c ∷ cs) kind =
    length-append (container_issues c kind) (issues_of cs kind)
    ∙ ground (arith, length-container_issues c kind, length-issues_of cs kind)

length-scheduling_issues :
    (d : PodDetail) → length (scheduling_issues d) ≡ (if is_unplaced d then 1 else 0)
unfolding scheduling_issues
length-scheduling_issues d = elim (Option-cases (find_unscheduled d.conditions)) [
  | inl e ↦ ground (arith, e)
  | inr (c, e) ↦ ground (arith, e)
]

-- A pod has one finding for each of its containers in trouble, init containers included, and one more
-- if it is pending and a condition says that it could not be scheduled; so it has none exactly if
-- there is nothing of that.
pub length-pod_diagnosis :
    (d : PodDetail)
    → length (pod_diagnosis d)
      ≡ (if is_unplaced d then 1 else 0)
        + (count_troubled d.init_containers + count_troubled d.containers)
unfolding pod_diagnosis
length-pod_diagnosis d =
    length-append (scheduling_issues d)
      (issues_of d.init_containers init ++ issues_of d.containers container)
    ∙ ground (
      arith,
      length-append (issues_of d.init_containers init) (issues_of d.containers container),
      length-issues_of d.init_containers init,
      length-issues_of d.containers container,
      length-scheduling_issues d,
    )
