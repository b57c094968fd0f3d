-- ===== src/PodDiagnosis.antt =====
-- features/pods/podDiagnosis.ts: findings on a pod from its status. Of the pod's and the containers'
-- fields there are those that the diagnosis reads; the backend sends the empty text for a reason or
-- a message that is absent.
mod Laws
mod Tests
use Prim.Native.String.{◌++◌}
use klustr.Prelude.{
  ℕ, String, Bool, Option, none, some, List, [], ◌∷◌, ◌&&◌, not, ◌==◌, if◌then◌else◌, includes, leb,
  eqb,
}
use klustr.Prelude as L
use klustr.Prelude.Numerals.{decimal}

pub data DiagnosisSeverity : Type 0 where
  error warning : DiagnosisSeverity

pub record DiagnosisItem : Type 0 where
  pub severity : DiagnosisSeverity
  pub title : String
  pub detail : String

pub record ContainerDetail : Type 0 where
  pub name : String
  pub image : String
  pub state : String
  pub state_reason : String
  pub restart_count : ℕ
  pub last_state : String

pub record ConditionDetail : Type 0 where
  pub type_name : String
  pub status : String
  pub reason : String
  pub message : String

pub record PodDetail : Type 0 where
  pub phase : String
  pub init_containers : List ContainerDetail
  pub containers : List ContainerDetail
  pub conditions : List ConditionDetail

pub data ContainerKind : Type 0 where
  init container : ContainerKind

abbrev transient_waiting : List String
transient_waiting = "ContainerCreating" ∷ "PodInitializing" ∷ []

abbrev image_pull_reasons : List String
image_pull_reasons =
    "ImagePullBackOff" ∷ "ErrImagePull" ∷ "InvalidImageName" ∷ "ImageInspectError"
    ∷ "ErrImageNeverPull" ∷ []

abbrev config_reasons : List String
config_reasons = "CreateContainerConfigError" ∷ "CreateContainerError" ∷ "RunContainerError" ∷ []

abbrev pub high_restart_count : ℕ
high_restart_count = 5

unfoldable pub times : ℕ → String
times n = decimal n ++ " time" ++ (if eqb n 1 then "" else "s")

abbrev pub label_of : ContainerKind → String
label_of init = "init container"
label_of container = "container"

-- `c.lastState ? ` Last exit: ${c.lastState}.` : ''`
abbrev last_exit : ContainerDetail → String
last_exit c = if c.last_state == "" then "" else " Last exit: " ++ c.last_state ++ "."

abbrev item : DiagnosisSeverity → String → String → List DiagnosisItem
item severity title detail = record { severity = severity; title = title; detail = detail } ∷ []

-- `c.state === 'Waiting' && c.stateReason && !TRANSIENT_WAITING.has(c.stateReason)`
abbrev pub is_stuck : ContainerDetail → Bool
is_stuck c =
    c.state == "Waiting"
    && not (c.state_reason == "")
    && not (includes c.state_reason transient_waiting)

-- the branches for a container that waits
unfoldable pub waiting_issues : ContainerDetail → String → List DiagnosisItem
unfolding times
waiting_issues c label =
    if c.state_reason == "CrashLoopBackOff"
    then item error (c.name ++ ": CrashLoopBackOff") (
        "This "
        ++ label
        ++ " keeps crashing and is being restarted with backoff (restarted "
        ++ times c.restart_count
        ++ ")."
        ++ last_exit c
        ++ " Check its logs and last exit reason.")
    else if includes c.state_reason image_pull_reasons
    then item error (c.name ++ ": " ++ c.state_reason) (
        "The image \"" ++ c.image
        ++ "\" could not be pulled. Check the image name and tag, and registry credentials (imagePullSecrets).")
    else if includes c.state_reason config_reasons
    then item error (c.name ++ ": " ++ c.state_reason) (
        "This " ++ label
        ++ " could not start. Check its referenced ConfigMaps, Secrets, volume mounts, and command.")
    else item warning (c.name ++ ": " ++ c.state_reason)
        ("This " ++ label ++ " is waiting (" ++ c.state_reason ++ ").")

-- the branches for one that has terminated for a reason
unfoldable pub terminated_issues : ContainerDetail → String → List DiagnosisItem
terminated_issues c label =
    if c.state_reason == "OOMKilled"
    then item error (c.name ++ ": OOMKilled") (
        "This " ++ label
        ++ " was killed for exceeding its memory limit. Raise the memory limit or reduce its usage.")
    else if not (c.state_reason == "Completed")
    then item error (c.name ++ ": " ++ c.state_reason)
        ("This " ++ label ++ " terminated unexpectedly (" ++ c.state_reason ++ "). Check its logs.")
    else []

-- the branches for one that has crashed before
unfoldable pub restart_issues : ContainerDetail → String → List DiagnosisItem
unfolding times
restart_issues c label =
    if c.last_state == "OOMKilled"
    then item warning (c.name ++ ": previously OOMKilled") (
        "This "
        ++ label
        ++ " has restarted "
        ++ times c.restart_count
        ++ " and was last killed for exceeding its memory limit. Consider raising the memory limit.")
    else if leb high_restart_count c.restart_count
    then item warning (c.name ++ ": " ++ decimal c.restart_count ++ " restarts") (
        "This "
        ++ label
        ++ " has restarted "
        ++ times c.restart_count
        ++ "."
        ++ last_exit c
        ++ " Check its logs for a recurring failure.")
    else []

unfoldable pub container_issues : ContainerDetail → ContainerKind → List DiagnosisItem
unfolding waiting_issues terminated_issues restart_issues
container_issues c kind =
    if is_stuck c
    then waiting_issues c (label_of kind)
    else if c.state == "Terminated" && not (c.state_reason == "")
    then terminated_issues c (label_of kind)
    else restart_issues c (label_of kind)

-- `detail.conditions.find((c) => c.type === 'PodScheduled' && c.status === 'False')`
unfoldable pub find_unscheduled : List ConditionDetail → Option ConditionDetail
find_unscheduled [] = none
find_unscheduled (c ∷ cs) =
    let rest = find_unscheduled cs in
    if c.type_name == "PodScheduled" && c.status == "False" then some c else rest

unfoldable pub scheduling_detail : ConditionDetail → String
scheduling_detail s =
    if not (s.message == "")
    then "The scheduler could not place this pod: " ++ s.message
    else "The scheduler could not place this pod"
      ++ (if s.reason == "" then "" else " (" ++ s.reason ++ ")")
      ++ ". Check node capacity, taints/tolerations, affinity rules, and PVC binding."

unfoldable pub scheduling_issues : PodDetail → List DiagnosisItem
unfolding find_unscheduled scheduling_detail
scheduling_issues detail =
    if detail.phase == "Pending"
    then elim (find_unscheduled detail.conditions) [
      | none ↦ []
      | some s ↦ item error "Pending — not scheduled" (scheduling_detail s)
    ]
    else []

-- the loops that push the issues of each container
unfoldable pub issues_of : List ContainerDetail → ContainerKind → List DiagnosisItem
unfolding container_issues
issues_of [] kind = []
issues_of (c ∷ cs) kind = L.◌++◌ (container_issues c kind) (issues_of cs kind)

unfoldable pub pod_diagnosis : PodDetail → List DiagnosisItem
unfolding scheduling_issues issues_of
pod_diagnosis detail =
    L.◌++◌ (scheduling_issues detail)
      (L.◌++◌ (issues_of detail.init_containers init) (issues_of detail.containers container))
