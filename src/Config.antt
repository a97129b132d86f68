-- ===== src/Config.antt =====
-- crates/curfew-core/src/config.rs: the document that the user writes, as far as it is data.
pub mod Weakening
pub mod Kept
pub mod Validation
pub mod Edits
pub mod Stored
pub mod Rollback
pub mod Picker
pub mod Checks
pub mod Removal
pub mod Guards
use curfew.Prelude.{ℕ, Bool, true, false, ◌||◌, List, [], Option}
use curfew.Prelude.Lists.{find}
use curfew.Prelude.Order.{list_eq}
use curfew.Prelude.Text.{Text, codes}
use curfew.Budget.{Refill}
use curfew.Emergency
use curfew.Emergency.{EmergencyPolicy}
use curfew.Schedule.Weekly.{WeeklySchedule}
use curfew.Schedule.Calendar.{CalendarSchedule, CalendarSource}
use curfew.Target.{Target, window_title, keyword}

abbrev pub config_schema_version : ℕ
config_schema_version = 1

-- The first one is the default.
pub data Platform : Type 0 where
  android windows browser : Platform

abbrev pub same_platform : Platform → Platform → Bool
same_platform android android = true
same_platform windows windows = true
same_platform browser browser = true
same_platform _ _ = false

pub data Action : Type 0 where
  block : Action
  allow_only : Action
  budget : ℕ → Refill → Action
  launch_limit : ℕ → Refill → Action
  delay : ℕ → Action
  mute_notifications : Action

pub record Rule : Type 0 where
  pub target : Target
  pub action : Action
  pub platforms : List Platform

pub record Profile : Type 0 where
  pub id : Text
  pub name : Text
  pub description : Text
  pub rules : List Rule

pub record Resolver : Type 0 where
  pub enabled : Bool
  pub upstream : Text

abbrev default_upstream : Text
default_upstream = codes "1.1.1.1:53"

abbrev default_resolver : Resolver
default_resolver = record { enabled = false; upstream = default_upstream }

-- crates/curfew-core/src/token.rs
pub record Tag : Type 0 where
  pub id : Text
  pub hash : Text

pub record Config : Type 0 where
  pub schema_version : ℕ
  pub timezone : Text
  pub profiles : List Profile
  pub weekly : List WeeklySchedule
  pub calendars : List CalendarSchedule
  pub calendar_sources : List CalendarSource
  pub resolver : Resolver
  pub emergency : EmergencyPolicy
  pub tokens : List Tag

abbrev pub default : Config
default = record {
  schema_version = config_schema_version;
  timezone = codes "UTC";
  profiles = [];
  weekly = [];
  calendars = [];
  calendar_sources = [];
  resolver = default_resolver;
  emergency = Emergency.default;
  tokens = [];
}

unfoldable pub profile : Config → Text → Option Profile
profile c id = find (λ p. list_eq p.id id) c.profiles

abbrev pub meters : Action → Bool
meters (budget seconds refill) = true
meters (launch_limit count refill) = true
meters _ = false

abbrev reads_title : Target → Bool
reads_title (window_title pattern) = true
reads_title (keyword text) = true
reads_title _ = false

unfoldable pub needs_foreground : Rule → Bool
needs_foreground r = reads_title r.target || meters r.action
