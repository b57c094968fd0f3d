-- ===== src/Resources/Keys.antt =====
-- `KIND_KEYS` names the map of every kind of store/resources.ts.
use klustr.Prelude.{◌≡◌, refl, true, includes}
use klustr.Resources.Kinds.{KindKey, kinds, key_name, kind_keys}

pub includes-key_name : (kind : KindKey) → includes (key_name kind) kind_keys ≡ true
unfolding kind_keys key_name kinds includes
includes-key_name KindKey.namespaces = refl
includes-key_name KindKey.pods = refl
includes-key_name KindKey.deployments = refl
includes-key_name KindKey.services = refl
includes-key_name KindKey.config_maps = refl
includes-key_name KindKey.secrets = refl
includes-key_name KindKey.stateful_sets = refl
includes-key_name KindKey.daemon_sets = refl
includes-key_name KindKey.replica_sets = refl
includes-key_name KindKey.persistent_volume_claims = refl
includes-key_name KindKey.persistent_volumes = refl
includes-key_name KindKey.storage_classes = refl
includes-key_name KindKey.csi_drivers = refl
includes-key_name KindKey.csi_nodes = refl
includes-key_name KindKey.volume_attachments = refl
includes-key_name KindKey.flow_schemas = refl
includes-key_name KindKey.priority_level_configurations = refl
includes-key_name KindKey.network_policies = refl
includes-key_name KindKey.horizontal_pod_autoscalers = refl
includes-key_name KindKey.pod_disruption_budgets = refl
includes-key_name KindKey.endpoint_slices = refl
includes-key_name KindKey.resource_quotas = refl
includes-key_name KindKey.limit_ranges = refl
includes-key_name KindKey.ingress_classes = refl
includes-key_name KindKey.priority_classes = refl
includes-key_name KindKey.runtime_classes = refl
includes-key_name KindKey.leases = refl
includes-key_name KindKey.mutating_webhook_configurations = refl
includes-key_name KindKey.validating_webhook_configurations = refl
includes-key_name KindKey.api_services = refl
includes-key_name KindKey.endpoints = refl
includes-key_name KindKey.replication_controllers = refl
includes-key_name KindKey.jobs = refl
includes-key_name KindKey.cron_jobs = refl
includes-key_name KindKey.ingresses = refl
includes-key_name KindKey.nodes = refl
includes-key_name KindKey.service_accounts = refl
includes-key_name KindKey.roles = refl
includes-key_name KindKey.role_bindings = refl
includes-key_name KindKey.cluster_roles = refl
includes-key_name KindKey.cluster_role_bindings = refl
includes-key_name KindKey.certificate_signing_requests = refl
includes-key_name KindKey.gateways = refl
includes-key_name KindKey.http_routes = refl
includes-key_name KindKey.grpc_routes = refl
includes-key_name KindKey.gateway_classes = refl
includes-key_name KindKey.reference_grants = refl
includes-key_name KindKey.validating_admission_policies = refl
includes-key_name KindKey.validating_admission_policy_bindings = refl
includes-key_name KindKey.mutating_admission_policies = refl
includes-key_name KindKey.mutating_admission_policy_bindings = refl
includes-key_name KindKey.device_classes = refl
includes-key_name KindKey.resource_slices = refl
includes-key_name KindKey.resource_claims = refl
includes-key_name KindKey.resource_claim_templates = refl
includes-key_name KindKey.service_cidrs = refl
includes-key_name KindKey.ip_addresses = refl
