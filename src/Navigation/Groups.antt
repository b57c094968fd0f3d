-- ===== src/Navigation/Groups.antt =====
-- features/_shared/resourceGroups.ts: the groups of the sidebar and their items, without icons.
use klustr.Prelude.{String, Option, none, some, List, [], ◌∷◌}
use klustr.Ui.Views.{
  ResourceView, overview, nodes, namespaces, apiservices, flowschemas, prioritylevelconfigurations,
  events, workloadsoverview, pods, deployments, statefulsets, daemonsets, replicasets,
  replicationcontrollers, jobs, cronjobs, configmaps, secrets, horizontalpodautoscalers,
  poddisruptionbudgets, resourcequotas, limitranges, priorityclasses, runtimeclasses, leases,
  mutatingwebhookconfigurations, validatingwebhookconfigurations, validatingadmissionpolicies,
  validatingadmissionpolicybindings, mutatingadmissionpolicies, mutatingadmissionpolicybindings,
  deviceclasses, resourceslices, resourceclaims, resourceclaimtemplates, services, ingresses,
  networkpolicies, endpointslices, endpoints, ingressclasses, servicecidrs, ipaddresses,
  persistentvolumeclaims, persistentvolumes, storageclasses, csidrivers, csinodes,
  volumeattachments, accessreview, serviceaccounts, clusterroles, roles, clusterrolebindings,
  rolebindings, certificatesigningrequests, helmreleases, helmrepos, argocdapplications,
  argocdappprojects, argocdapplicationsets, gateways, httproutes, grpcroutes, gatewayclasses,
  referencegrants, karpenternodepools, karpenternodeclaims, fluxkustomizations, fluxhelmreleases,
  fluxgitrepositories, fluxhelmrepositories, fluxocirepositories, fluxbuckets, fluxproviders,
  fluxalerts, fluxreceivers, istiovirtualservices, istiodestinationrules, istiopeerauthentications,
  certmanagercertificates, certmanagercertificaterequests, certmanagerorders, certmanagerchallenges,
  certmanagerissuers, certmanagerclusterissuers,
}

pub record NavItem : Type 0 where
  pub label : String
  pub view : Option ResourceView
  pub kind : Option String

pub record ResourceGroup : Type 0 where
  pub label : String
  pub items : List NavItem

abbrev of_kind : String → ResourceView → String → NavItem
of_kind label view kind = record { label = label; view = some view; kind = some kind }

abbrev always : String → ResourceView → NavItem
always label view = record { label = label; view = some view; kind = none }

abbrev cluster_group : ResourceGroup
cluster_group = record {
  label = "Cluster";
  items =
      always "Overview" overview
      ∷ of_kind "Nodes" nodes "Node"
      ∷ of_kind "Namespaces" namespaces "Namespace"
      ∷ of_kind "API Services" apiservices "APIService"
      ∷ of_kind "Flow Schemas" flowschemas "FlowSchema"
      ∷ of_kind "Priority Levels" prioritylevelconfigurations "PriorityLevelConfiguration"
      ∷ always "Events" events
      ∷ [];
}

abbrev workloads_group : ResourceGroup
workloads_group = record {
  label = "Workloads";
  items =
      always "Overview" workloadsoverview
      ∷ of_kind "Pods" pods "Pod"
      ∷ of_kind "Deployments" deployments "Deployment"
      ∷ of_kind "StatefulSets" statefulsets "StatefulSet"
      ∷ of_kind "DaemonSets" daemonsets "DaemonSet"
      ∷ of_kind "ReplicaSets" replicasets "ReplicaSet"
      ∷ of_kind "ReplicationControllers" replicationcontrollers "ReplicationController"
      ∷ of_kind "Jobs" jobs "Job"
      ∷ of_kind "CronJobs" cronjobs "CronJob"
      ∷ [];
}

abbrev config_group : ResourceGroup
config_group = record {
  label = "Config";
  items =
      of_kind "ConfigMaps" configmaps "ConfigMap"
      ∷ of_kind "Secrets" secrets "Secret"
      ∷ of_kind "HorizontalPodAutoscalers" horizontalpodautoscalers "HorizontalPodAutoscaler"
      ∷ of_kind "PodDisruptionBudgets" poddisruptionbudgets "PodDisruptionBudget"
      ∷ of_kind "ResourceQuotas" resourcequotas "ResourceQuota"
      ∷ of_kind "LimitRanges" limitranges "LimitRange"
      ∷ of_kind "PriorityClasses" priorityclasses "PriorityClass"
      ∷ of_kind "RuntimeClasses" runtimeclasses "RuntimeClass"
      ∷ of_kind "Leases" leases "Lease"
      ∷ of_kind "MutatingWebhooks" mutatingwebhookconfigurations "MutatingWebhookConfiguration"
      ∷ of_kind "ValidatingWebhooks" validatingwebhookconfigurations
          "ValidatingWebhookConfiguration"
      ∷ of_kind "ValidatingAdmissionPolicies" validatingadmissionpolicies
          "ValidatingAdmissionPolicy"
      ∷ of_kind "VAP Bindings" validatingadmissionpolicybindings "ValidatingAdmissionPolicyBinding"
      ∷ of_kind "MutatingAdmissionPolicies" mutatingadmissionpolicies "MutatingAdmissionPolicy"
      ∷ of_kind "MAP Bindings" mutatingadmissionpolicybindings "MutatingAdmissionPolicyBinding"
      ∷ [];
}

abbrev devices_group : ResourceGroup
devices_group = record {
  label = "Devices";
  items =
      of_kind "Device Classes" deviceclasses "DeviceClass"
      ∷ of_kind "Resource Slices" resourceslices "ResourceSlice"
      ∷ of_kind "Resource Claims" resourceclaims "ResourceClaim"
      ∷ of_kind "Claim Templates" resourceclaimtemplates "ResourceClaimTemplate"
      ∷ [];
}

abbrev network_group : ResourceGroup
network_group = record {
  label = "Network";
  items =
      of_kind "Services" services "Service"
      ∷ of_kind "Ingresses" ingresses "Ingress"
      ∷ of_kind "NetworkPolicies" networkpolicies "NetworkPolicy"
      ∷ of_kind "EndpointSlices" endpointslices "EndpointSlice"
      ∷ of_kind "Endpoints" endpoints "Endpoints"
      ∷ of_kind "IngressClasses" ingressclasses "IngressClass"
      ∷ of_kind "Service CIDRs" servicecidrs "ServiceCIDR"
      ∷ of_kind "IP Addresses" ipaddresses "IPAddress"
      ∷ [];
}

abbrev storage_group : ResourceGroup
storage_group = record {
  label = "Storage";
  items =
      of_kind "PersistentVolumeClaims" persistentvolumeclaims "PersistentVolumeClaim"
      ∷ of_kind "PersistentVolumes" persistentvolumes "PersistentVolume"
      ∷ of_kind "StorageClasses" storageclasses "StorageClass"
      ∷ of_kind "CSI Drivers" csidrivers "CSIDriver"
      ∷ of_kind "CSI Nodes" csinodes "CSINode"
      ∷ of_kind "Volume Attachments" volumeattachments "VolumeAttachment"
      ∷ [];
}

abbrev access_control_group : ResourceGroup
access_control_group = record {
  label = "Access Control";
  items =
      always "Access Review" accessreview
      ∷ of_kind "Service Accounts" serviceaccounts "ServiceAccount"
      ∷ of_kind "Cluster Roles" clusterroles "ClusterRole"
      ∷ of_kind "Roles" roles "Role"
      ∷ of_kind "Cluster Role Bindings" clusterrolebindings "ClusterRoleBinding"
      ∷ of_kind "Role Bindings" rolebindings "RoleBinding"
      ∷ of_kind "CSRs" certificatesigningrequests "CertificateSigningRequest"
      ∷ [];
}

abbrev pub resource_groups : List ResourceGroup
resource_groups =
    cluster_group ∷ workloads_group ∷ config_group ∷ devices_group ∷ network_group ∷ storage_group
    ∷ access_control_group ∷ []

abbrev pub helm_group : ResourceGroup
helm_group = record {
  label = "Helm";
  items = of_kind "Releases" helmreleases "Secret" ∷ always "Repositories" helmrepos ∷ [];
}

abbrev pub argo_group : ResourceGroup
argo_group = record {
  label = "Argo CD";
  items =
      always "Applications" argocdapplications
      ∷ always "Projects" argocdappprojects
      ∷ always "ApplicationSets" argocdapplicationsets
      ∷ [];
}

abbrev pub gateway_group : ResourceGroup
gateway_group = record {
  label = "Gateway API";
  items =
      always "Gateways" gateways
      ∷ always "HTTPRoutes" httproutes
      ∷ always "GRPCRoutes" grpcroutes
      ∷ always "GatewayClasses" gatewayclasses
      ∷ always "ReferenceGrants" referencegrants
      ∷ [];
}

abbrev pub karpenter_group : ResourceGroup
karpenter_group = record {
  label = "Karpenter";
  items = always "NodePools" karpenternodepools ∷ always "NodeClaims" karpenternodeclaims ∷ [];
}

abbrev pub flux_group : ResourceGroup
flux_group = record {
  label = "Flux CD";
  items =
      always "Kustomizations" fluxkustomizations
      ∷ always "HelmReleases" fluxhelmreleases
      ∷ always "GitRepositories" fluxgitrepositories
      ∷ always "HelmRepositories" fluxhelmrepositories
      ∷ always "OCIRepositories" fluxocirepositories
      ∷ always "Buckets" fluxbuckets
      ∷ always "Providers" fluxproviders
      ∷ always "Alerts" fluxalerts
      ∷ always "Receivers" fluxreceivers
      ∷ [];
}

abbrev pub istio_group : ResourceGroup
istio_group = record {
  label = "Istio";
  items =
      always "VirtualServices" istiovirtualservices
      ∷ always "DestinationRules" istiodestinationrules
      ∷ always "PeerAuthentications" istiopeerauthentications
      ∷ [];
}

abbrev pub cert_manager_group : ResourceGroup
cert_manager_group = record {
  label = "cert-manager";
  items =
      always "Certificates" certmanagercertificates
      ∷ always "Requests" certmanagercertificaterequests
      ∷ always "Orders" certmanagerorders
      ∷ always "Challenges" certmanagerchallenges
      ∷ always "Issuers" certmanagerissuers
      ∷ always "ClusterIssuers" certmanagerclusterissuers
      ∷ [];
}
