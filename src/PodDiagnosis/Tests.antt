-- ===== src/PodDiagnosis/Tests.antt =====
-- The diagnosis of a pod that keeps crashing.
use klustr.Prelude.{includes, refl, ◌≡◌, ◌∷◌, []}
use klustr.Prelude.Numerals.{decimal}
use klustr.PodDiagnosis.{
  ContainerDetail, ContainerKind, DiagnosisSeverity, PodDetail, container_issues,
}

abbrev crashing : ContainerDetail
crashing = record {
  name = "web";
  image = "web:1";
  state = "Waiting";
  state_reason = "CrashLoopBackOff";
  restart_count = 7;
  last_state = "Error";
}

abbrev done : ContainerDetail
done = record {
  name = "setup";
  image = "setup:1";
  state = "Terminated";
  state_reason = "Completed";
  restart_count = 0;
  last_state = "";
}

abbrev crashing_pod : PodDetail
crashing_pod = record {
  phase = "Running";
  init_containers = done ∷ [];
  containers = crashing ∷ [];
  conditions = [];
}

crash_loop :
    container_issues crashing ContainerKind.container
    ≡ record {
      severity = DiagnosisSeverity.error;
      title = "web: CrashLoopBackOff";
      detail =
          "This container keeps crashing and is being restarted with backoff (restarted 7 times). Last exit: Error. Check its logs and last exit reason.";
    }
      ∷ []
unfolding container_issues decimal includes
crash_loop = refl
