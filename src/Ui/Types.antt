-- ===== src/Ui/Types.antt =====
-- store/ui.types.ts: the data that the UI store keeps, and its constants.
use klustr.Prelude.{ℕ, String, Option, List, Bool}

pub data SidebarMode : Type 0 where
  expanded icons : SidebarMode

abbrev pub sidebar_width_min : ℕ
sidebar_width_min = 200

abbrev pub sidebar_width_max : ℕ
sidebar_width_max = 400

abbrev pub sidebar_width_default : ℕ
sidebar_width_default = 256

-- Tags and colors are strings at run time: what is stored is checked when it is read.
abbrev pub ContextTag : Type 0
ContextTag = String

pub record CustomTagDef : Type 0 where
  pub id : String
  pub label : String
  pub short_label : String
  pub color : String

pub record ContextGroup : Type 0 where
  pub id : String
  pub name : String
  pub contexts : List String
  pub color : String

pub record LastSession : Type 0 where
  pub contexts : List String
  pub group_id : Option String
  pub at : ℕ

abbrev pub max_tags_per_context : ℕ
max_tags_per_context = 3

pub record SelectedResourceGvr : Type 0 where
  pub group : String
  pub version : String
  pub resource : String

-- `kind` is `ResourceKind | string`, a string.
pub record SelectedResource : Type 0 where
  pub kind : String
  pub namespace : String
  pub name : String
  pub gvr : Option SelectedResourceGvr
  pub context : Option String
  pub suspended : Option Bool
  pub log_container : Option String

pub data DetailTab : Type 0 where
  overview logs exec shell events history yaml : DetailTab

pub data PendingAction : Type 0 where
  delete portforward pause resize_pod restart scale : SelectedResource → PendingAction
