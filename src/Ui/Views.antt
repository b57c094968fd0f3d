-- ===== src/Ui/Views.antt =====
-- store/ui.types.ts: the views of the sidebar, and the strings that the store keeps for them.
use klustr.Prelude.{String}

pub data ResourceView : Type 0 where
  overview workloadsoverview pods deployments services configmaps secrets : ResourceView
  statefulsets daemonsets replicasets persistentvolumeclaims persistentvolumes : ResourceView
  storageclasses csidrivers csinodes volumeattachments flowschemas : ResourceView
  prioritylevelconfigurations networkpolicies horizontalpodautoscalers : ResourceView
  poddisruptionbudgets endpointslices resourcequotas limitranges ingressclasses : ResourceView
  priorityclasses runtimeclasses leases mutatingwebhookconfigurations : ResourceView
  validatingwebhookconfigurations validatingadmissionpolicies : ResourceView
  validatingadmissionpolicybindings mutatingadmissionpolicies : ResourceView
  mutatingadmissionpolicybindings deviceclasses resourceslices resourceclaims : ResourceView
  resourceclaimtemplates servicecidrs ipaddresses apiservices endpoints : ResourceView
  replicationcontrollers events jobs cronjobs ingresses nodes namespaces : ResourceView
  serviceaccounts roles rolebindings clusterroles clusterrolebindings : ResourceView
  certificatesigningrequests accessreview helmreleases helmrepos : ResourceView
  argocdapplications argocdappprojects argocdapplicationsets gateways : ResourceView
  httproutes grpcroutes gatewayclasses referencegrants karpenternodepools : ResourceView
  karpenternodeclaims fluxkustomizations fluxhelmreleases fluxgitrepositories : ResourceView
  fluxhelmrepositories fluxocirepositories fluxbuckets fluxproviders fluxalerts : ResourceView
  fluxreceivers istiovirtualservices istiodestinationrules : ResourceView
  istiopeerauthentications certmanagercertificates certmanagerissuers : ResourceView
  certmanagerclusterissuers certmanagercertificaterequests certmanagerorders : ResourceView
  certmanagerchallenges : ResourceView

-- A view is its own name at run time.
unfoldable pub view_name : ResourceView → String
view_name overview = "overview"
view_name workloadsoverview = "workloadsoverview"
view_name pods = "pods"
view_name deployments = "deployments"
view_name services = "services"
view_name configmaps = "configmaps"
view_name secrets = "secrets"
view_name statefulsets = "statefulsets"
view_name daemonsets = "daemonsets"
view_name replicasets = "replicasets"
view_name persistentvolumeclaims = "persistentvolumeclaims"
view_name persistentvolumes = "persistentvolumes"
view_name storageclasses = "storageclasses"
view_name csidrivers = "csidrivers"
view_name csinodes = "csinodes"
view_name volumeattachments = "volumeattachments"
view_name flowschemas = "flowschemas"
view_name prioritylevelconfigurations = "prioritylevelconfigurations"
view_name networkpolicies = "networkpolicies"
view_name horizontalpodautoscalers = "horizontalpodautoscalers"
view_name poddisruptionbudgets = "poddisruptionbudgets"
view_name endpointslices = "endpointslices"
view_name resourcequotas = "resourcequotas"
view_name limitranges = "limitranges"
view_name ingressclasses = "ingressclasses"
view_name priorityclasses = "priorityclasses"
view_name runtimeclasses = "runtimeclasses"
view_name leases = "leases"
view_name mutatingwebhookconfigurations = "mutatingwebhookconfigurations"
view_name validatingwebhookconfigurations = "validatingwebhookconfigurations"
view_name validatingadmissionpolicies = "validatingadmissionpolicies"
view_name validatingadmissionpolicybindings = "validatingadmissionpolicybindings"
view_name mutatingadmissionpolicies = "mutatingadmissionpolicies"
view_name mutatingadmissionpolicybindings = "mutatingadmissionpolicybindings"
view_name deviceclasses = "deviceclasses"
view_name resourceslices = "resourceslices"
view_name resourceclaims = "resourceclaims"
view_name resourceclaimtemplates = "resourceclaimtemplates"
view_name servicecidrs = "servicecidrs"
view_name ipaddresses = "ipaddresses"
view_name apiservices = "apiservices"
view_name endpoints = "endpoints"
view_name replicationcontrollers = "replicationcontrollers"
view_name events = "events"
view_name jobs = "jobs"
view_name cronjobs = "cronjobs"
view_name ingresses = "ingresses"
view_name nodes = "nodes"
view_name namespaces = "namespaces"
view_name serviceaccounts = "serviceaccounts"
view_name roles = "roles"
view_name rolebindings = "rolebindings"
view_name clusterroles = "clusterroles"
view_name clusterrolebindings = "clusterrolebindings"
view_name certificatesigningrequests = "certificatesigningrequests"
view_name accessreview = "accessreview"
view_name helmreleases = "helmreleases"
view_name helmrepos = "helmrepos"
view_name argocdapplications = "argocdapplications"
view_name argocdappprojects = "argocdappprojects"
view_name argocdapplicationsets = "argocdapplicationsets"
view_name gateways = "gateways"
view_name httproutes = "httproutes"
view_name grpcroutes = "grpcroutes"
view_name gatewayclasses = "gatewayclasses"
view_name referencegrants = "referencegrants"
view_name karpenternodepools = "karpenternodepools"
view_name karpenternodeclaims = "karpenternodeclaims"
view_name fluxkustomizations = "fluxkustomizations"
view_name fluxhelmreleases = "fluxhelmreleases"
view_name fluxgitrepositories = "fluxgitrepositories"
view_name fluxhelmrepositories = "fluxhelmrepositories"
view_name fluxocirepositories = "fluxocirepositories"
view_name fluxbuckets = "fluxbuckets"
view_name fluxproviders = "fluxproviders"
view_name fluxalerts = "fluxalerts"
view_name fluxreceivers = "fluxreceivers"
view_name istiovirtualservices = "istiovirtualservices"
view_name istiodestinationrules = "istiodestinationrules"
view_name istiopeerauthentications = "istiopeerauthentications"
view_name certmanagercertificates = "certmanagercertificates"
view_name certmanagerissuers = "certmanagerissuers"
view_name certmanagerclusterissuers = "certmanagerclusterissuers"
view_name certmanagercertificaterequests = "certmanagercertificaterequests"
view_name certmanagerorders = "certmanagerorders"
view_name certmanagerchallenges = "certmanagerchallenges"
