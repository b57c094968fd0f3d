-- ===== src/Resources/Kinds.antt =====
-- store/resources.ts: the kinds of resources, and the keys under which the store keeps them.
use klustr.Prelude.{String, List, [], ◌∷◌, map}

pub data KindKey : Type 0 where
  namespaces pods deployments services config_maps secrets stateful_sets : KindKey
  daemon_sets replica_sets persistent_volume_claims persistent_volumes : KindKey
  storage_classes csi_drivers csi_nodes volume_attachments flow_schemas : KindKey
  priority_level_configurations network_policies horizontal_pod_autoscalers : KindKey
  pod_disruption_budgets endpoint_slices resource_quotas limit_ranges : KindKey
  ingress_classes priority_classes runtime_classes leases : KindKey
  mutating_webhook_configurations validating_webhook_configurations api_services : KindKey
  endpoints replication_controllers jobs cron_jobs ingresses nodes service_accounts : KindKey
  roles role_bindings cluster_roles cluster_role_bindings : KindKey
  certificate_signing_requests gateways http_routes grpc_routes gateway_classes : KindKey
  reference_grants validating_admission_policies : KindKey
  validating_admission_policy_bindings mutating_admission_policies : KindKey
  mutating_admission_policy_bindings device_classes resource_slices resource_claims : KindKey
  resource_claim_templates service_cidrs ip_addresses : KindKey

unfoldable pub key_name : KindKey → String
key_name namespaces = "namespaces"
key_name pods = "pods"
key_name deployments = "deployments"
key_name services = "services"
key_name config_maps = "configMaps"
key_name secrets = "secrets"
key_name stateful_sets = "statefulSets"
key_name daemon_sets = "daemonSets"
key_name replica_sets = "replicaSets"
key_name persistent_volume_claims = "persistentVolumeClaims"
key_name persistent_volumes = "persistentVolumes"
key_name storage_classes = "storageClasses"
key_name csi_drivers = "csiDrivers"
key_name csi_nodes = "csiNodes"
key_name volume_attachments = "volumeAttachments"
key_name flow_schemas = "flowSchemas"
key_name priority_level_configurations = "priorityLevelConfigurations"
key_name network_policies = "networkPolicies"
key_name horizontal_pod_autoscalers = "horizontalPodAutoscalers"
key_name pod_disruption_budgets = "podDisruptionBudgets"
key_name endpoint_slices = "endpointSlices"
key_name resource_quotas = "resourceQuotas"
key_name limit_ranges = "limitRanges"
key_name ingress_classes = "ingressClasses"
key_name priority_classes = "priorityClasses"
key_name runtime_classes = "runtimeClasses"
key_name leases = "leases"
key_name mutating_webhook_configurations = "mutatingWebhookConfigurations"
key_name validating_webhook_configurations = "validatingWebhookConfigurations"
key_name api_services = "apiServices"
key_name endpoints = "endpoints"
key_name replication_controllers = "replicationControllers"
key_name jobs = "jobs"
key_name cron_jobs = "cronJobs"
key_name ingresses = "ingresses"
key_name nodes = "nodes"
key_name service_accounts = "serviceAccounts"
key_name roles = "roles"
key_name role_bindings = "roleBindings"
key_name cluster_roles = "clusterRoles"
key_name cluster_role_bindings = "clusterRoleBindings"
key_name certificate_signing_requests = "certificateSigningRequests"
key_name gateways = "gateways"
key_name http_routes = "httpRoutes"
key_name grpc_routes = "grpcRoutes"
key_name gateway_classes = "gatewayClasses"
key_name reference_grants = "referenceGrants"
key_name validating_admission_policies = "validatingAdmissionPolicies"
key_name validating_admission_policy_bindings = "validatingAdmissionPolicyBindings"
key_name mutating_admission_policies = "mutatingAdmissionPolicies"
key_name mutating_admission_policy_bindings = "mutatingAdmissionPolicyBindings"
key_name device_classes = "deviceClasses"
key_name resource_slices = "resourceSlices"
key_name resource_claims = "resourceClaims"
key_name resource_claim_templates = "resourceClaimTemplates"
key_name service_cidrs = "serviceCIDRs"
key_name ip_addresses = "ipAddresses"

-- `KIND_KEYS`, as kinds and as the strings that they are
unfoldable pub kinds : List KindKey
kinds =
    namespaces ∷ pods ∷ deployments ∷ services ∷ config_maps ∷ secrets ∷ stateful_sets ∷ daemon_sets
    ∷ replica_sets ∷ persistent_volume_claims ∷ persistent_volumes ∷ storage_classes ∷ csi_drivers
    ∷ csi_nodes ∷ volume_attachments ∷ flow_schemas ∷ priority_level_configurations
    ∷ network_policies ∷ horizontal_pod_autoscalers ∷ pod_disruption_budgets ∷ endpoint_slices
    ∷ resource_quotas ∷ limit_ranges ∷ ingress_classes ∷ priority_classes ∷ runtime_classes ∷ leases
    ∷ mutating_webhook_configurations ∷ validating_webhook_configurations ∷ api_services ∷ endpoints
    ∷ replication_controllers ∷ jobs ∷ cron_jobs ∷ ingresses ∷ nodes ∷ service_accounts ∷ roles
    ∷ role_bindings ∷ cluster_roles ∷ cluster_role_bindings ∷ certificate_signing_requests
    ∷ gateways ∷ http_routes ∷ grpc_routes ∷ gateway_classes ∷ reference_grants
    ∷ validating_admission_policies ∷ validating_admission_policy_bindings
    ∷ mutating_admission_policies ∷ mutating_admission_policy_bindings ∷ device_classes
    ∷ resource_slices ∷ resource_claims ∷ resource_claim_templates ∷ service_cidrs ∷ ip_addresses
    ∷ []

unfoldable pub kind_keys : List String
unfolding kinds key_name
kind_keys = map key_name kinds
