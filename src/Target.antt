-- ===== src/Target.antt =====
-- crates/curfew-core/src/target.rs: what a rule points at, and what the platform reports.
pub mod Keys
use curfew.Prelude.{Bool, true, false, ◌&&◌, List, [], ◌∷◌, ◌++◌, Option, none, some, is_some_and}
use curfew.Prelude.Text.{Text, codes, trim, str_eq_ci, contains, slashes}
use curfew.Prelude.Unicode.{Unicode}
use curfew.Url
use curfew.Url.{Url, normalized}
use curfew.Domain.{trim_dots, domain_matches}
use curfew.Glob.{glob_match}

pub data Target : Type 0 where
  app_package : Text → Target
  app_screen : Text → Text → Target
  windows_exe : Text → Target
  window_title : Text → Target
  domain : Text → Target
  url : Text → Target
  keyword : Text → Target
  file_path : Text → Target
  notification_source : Text → Target
  whole_device : Target

pub data Observation : Type 0 where
  app : Text → Option Text → Observation
  window : Text → Text → Observation
  web : Url → Observation
  notification : Text → Text → Observation
  file_open : Text → Observation
  idle : Observation

unfoldable pub searchable_text : Observation → Option Text
searchable_text (app name screen) = screen
searchable_text (window exe title) = some title
searchable_text (web u) = some (normalized u)
searchable_text (notification name title) = some title
searchable_text (file_open path) = some path
searchable_text idle = none

unfoldable pub is_notification : Observation → Bool
is_notification (notification name title) = true
is_notification _ = false

module _ (unicode : Unicode) where
  unfoldable pub key : Target → Text
  key (app_package name) = codes "app:" ++ unicode.to_lowercase name
  key (app_screen name screen) =
      codes "screen:" ++ unicode.to_lowercase name ++ codes ":" ++ unicode.to_lowercase screen
  key (windows_exe exe) = codes "exe:" ++ unicode.to_lowercase exe
  key (window_title pattern) = codes "title:" ++ unicode.to_lowercase pattern
  key (domain d) = codes "domain:" ++ unicode.to_lowercase (trim_dots (trim d))
  key (url pattern) = codes "url:" ++ unicode.to_lowercase pattern
  key (keyword text) = codes "keyword:" ++ unicode.to_lowercase text
  key (file_path pattern) = codes "path:" ++ unicode.to_lowercase pattern
  key (notification_source name) = codes "notif:" ++ unicode.to_lowercase name
  key whole_device = codes "device"

  unfoldable pub matches : Target → Observation → Bool
  unfolding searchable_text
  matches whole_device idle = false
  matches whole_device _ = true
  matches (app_package name) (app p s) = str_eq_ci name p
  matches (app_screen name screen) (app p s) =
      str_eq_ci name p && is_some_and s (λ t. str_eq_ci screen t)
  matches (windows_exe exe) (window e title) = str_eq_ci exe e
  matches (window_title pattern) (window e title) = glob_match unicode pattern title
  matches (domain d) (web u) = domain_matches d u.host
  matches (url pattern) (web u) = glob_match unicode pattern (normalized u)
  matches (file_path pattern) (file_open path) = glob_match unicode (slashes pattern) (slashes path)
  matches (notification_source name) (notification p title) = str_eq_ci name p
  matches (keyword text) obs =
      is_some_and (searchable_text obs)
        (λ haystack. contains (unicode.to_lowercase haystack) (unicode.to_lowercase text))
  matches _ _ = false
