-- ===== src/Polling.antt =====
-- The hooks that ask the backend again and again: features/pods/usePodMetricsPoll.ts,
-- features/nodes/useNodeMetricsPoll.ts and features/_shared/useResourceDetail.ts. What the runtime
-- chooses is a sequence of events: answers may come in any order, and late.
mod PodMetrics
mod NodeMetrics
mod Detail
