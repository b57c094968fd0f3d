-- ===== src/Connections.antt =====
-- features/contexts/ConnectionsScreen.tsx: the list of the kubeconfig's contexts by tag, and what
-- the screen's buttons select.
pub mod Defs
pub mod Sections
pub mod Connect
mod Tests
