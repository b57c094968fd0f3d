-- ===== src/Connections/Defs.antt =====
-- lib/wails/wailsjs/go/models.ts: a context of the kubeconfig.
use klustr.Prelude.{String, Bool, List, ◌==◌, any}

pub record ContextInfo : Type 0 where
  pub name : String
  pub cluster : String
  pub server : String
  pub user : String
  pub namespace : String

-- `contexts.some((c) => c.name === name)`
abbrev pub is_listed : List ContextInfo → String → Bool
is_listed contexts name = any (λ c. c.name == name) contexts
