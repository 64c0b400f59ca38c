-- ===== src/Protocols.antt =====
-- protocols.go: which protocols a hub speaks, where, and the endpoint that is selected.
-- A map is an association list. A value of a type that the source does not ask for is `other`, with
-- its text; Go's functions on texts and URLs are the parameter `GoEndpoints`.
pub mod Selection
pub mod Endpoints
mod Tests
use text.Mathlib.Text.{◌==◌ as str_eq}
use thalovant_go_sdk.Prelude.{
  Bool, true, false, not, ◌&&◌, ◌||◌, Option, none, some, String, List, [], ◌∷◌, ◌++◌,
  if◌then◌else◌,
}
use thalovant_go_sdk.Client.{HubProtocol, https, wss, mqtt}
use Prim.Native.String.{◌++◌ as str_append}

mutual
  pub data Value : Type 0 where
    nil : Value
    flag : Bool → Value
    string other : String → Value
    map_of : Map → Value
    string_map : List (String × String) → Value

  pub data Map : Type 0 where
    empty : Map
    with_entry : String → Value → Map → Map

-- `trim`, `lower`, `has_prefix`, `trim_prefix` are the functions of strings, `trim_slashes` trims "/" on
-- the right; `flag_text` and `map_text` are what fmt.Sprint makes of a value. `scheme` is the scheme of
-- what url.Parse reads, none when it fails or finds no scheme or no host.
pub record GoEndpoints : Type 0 where
  pub trim : String → String
  pub lower : String → String
  pub has_prefix : String → String → Bool
  pub trim_prefix : String → String → String
  pub trim_slashes : String → String
  pub flag_text : Bool → String
  pub map_text : Map → String
  pub string_map_text : List (String × String) → String
  pub scheme : String → Option String

abbrev pub default_protocol_preference : List HubProtocol
default_protocol_preference = wss ∷ https ∷ mqtt ∷ []

pub record HubProtocolSettings : Type 0 where
  pub wss_on : Bool
  pub http_on : Bool
  pub mqtt_on : Bool

unfoldable pub default_hub_protocol_settings : HubProtocolSettings
default_hub_protocol_settings = record { wss_on = true; http_on = false; mqtt_on = false }

unfoldable pub entry_at : Map → String → Option Value
entry_at empty key = none
entry_at (with_entry k v m) key = let rest = entry_at m key in if str_eq k key then some v else rest

abbrev pub strings_to_map : List (String × String) → Map
strings_to_map [] = empty
strings_to_map ((k, s) ∷ rest) = with_entry k (string s) (strings_to_map rest)

-- A nil map is none.
unfoldable pub map_from_any : Option Value → Option Map
map_from_any (some (map_of m)) = some m
map_from_any (some (string_map m)) = some (strings_to_map m)
map_from_any _ = none

-- The first of the keys that a map has.
unfoldable pub first_key : Map → List String → Option Value
first_key m [] = none
first_key m (key ∷ keys) = elim (entry_at m key) [ none ↦ first_key m keys | some v ↦ some v ]

unfoldable pub first_in : Option Map → List String → Option Value
first_in none keys = none
first_in (some m) keys = first_key m keys

unfoldable pub first_value : Option Map → Option Map → List String → Option Value
first_value primary secondary keys = elim (first_in primary keys) [
  | some v ↦ some v
  | none ↦ first_in secondary keys
]

module _ (g : GoEndpoints) where
  unfoldable pub read_switch : String → Bool → Bool
  read_switch word fallback =
      if str_eq word "1" || (str_eq word "true" || (str_eq word "yes" || str_eq word "on"))
      then true
      else if str_eq word "0" || (str_eq word "false" || (str_eq word "no" || str_eq word "off"))
      then false
      else fallback

  unfoldable mutual
    pub enabled_value : Value → Bool → Bool
    enabled_value (flag b) fallback = b
    enabled_value (string s) fallback = read_switch (g.lower (g.trim s)) fallback
    enabled_value (map_of m) fallback = enabled_entry m fallback
    enabled_value _ fallback = fallback

    -- `enabledValue(value["enabled"], fallback)`
    pub enabled_entry : Map → Bool → Bool
    enabled_entry empty fallback = fallback
    enabled_entry (with_entry k v m) fallback =
        let rest = enabled_entry m fallback in
        let here = enabled_value v fallback in if str_eq k "enabled" then here else rest

  unfoldable pub enabled_or : Option Value → Bool → Bool
  enabled_or none fallback = fallback
  enabled_or (some v) fallback = enabled_value v fallback

  unfoldable pub settings_of : Map → HubProtocolSettings
  settings_of source =
      let protocols = map_from_any (entry_at source "protocols") in
      let network = map_from_any (entry_at source "network") in
      record {
        wss_on = enabled_or (first_value protocols network ("wss" ∷ "websocket" ∷ [])) true;
        http_on = enabled_or (first_value protocols network ("http" ∷ "https" ∷ [])) false;
        mqtt_on = enabled_or (first_value protocols network ("mqtt" ∷ [])) false;
      }

  unfoldable pub protocol_settings_from_map : Option Map → HubProtocolSettings
  protocol_settings_from_map none = default_hub_protocol_settings
  protocol_settings_from_map (some values) = elim (map_from_any (entry_at values "spec")) [
    | none ↦ settings_of values
    | some spec ↦ settings_of spec
  ]

unfoldable pub enabled_protocols : HubProtocolSettings → List HubProtocol
enabled_protocols s =
    (if s.wss_on then wss ∷ [] else [])
    ++ ((if s.http_on then https ∷ [] else []) ++ (if s.mqtt_on then mqtt ∷ [] else []))

unfoldable pub is_enabled : HubProtocolSettings → HubProtocol → Bool
is_enabled s wss = s.wss_on
is_enabled s https = s.http_on
is_enabled s mqtt = s.mqtt_on

abbrev pub switch_map : Bool → Value
switch_map b = map_of (with_entry "enabled" (flag b) empty)

unfoldable pub spec_map : HubProtocolSettings → Map
spec_map s =
    with_entry "wss" (switch_map s.wss_on)
      (with_entry "http" (switch_map s.http_on) (with_entry "mqtt" (switch_map s.mqtt_on) empty))

pub record HubDataPlaneEndpoints : Type 0 where
  pub https_url : String
  pub wss_url : String
  pub mqtt_url : String

unfoldable pub endpoint_for : HubDataPlaneEndpoints → HubProtocol → String
endpoint_for e https = e.https_url
endpoint_for e wss = e.wss_url
endpoint_for e mqtt = e.mqtt_url

-- The loop of SelectDataPlaneEndpoint.
unfoldable pub select_from :
    HubDataPlaneEndpoints → HubProtocolSettings → List HubProtocol → Option (HubProtocol × String)
select_from endpoints protocols [] = none
select_from endpoints protocols (p ∷ preferred) =
    let rest = select_from endpoints protocols preferred in
    if not (is_enabled protocols p)
    then rest
    else if not (str_eq (endpoint_for endpoints p) "")
    then some (p, endpoint_for endpoints p)
    else rest

unfoldable pub preference : List HubProtocol → List HubProtocol
preference [] = default_protocol_preference
preference (p ∷ preferred) = p ∷ preferred

unfoldable pub select_data_plane_endpoint :
    HubDataPlaneEndpoints → HubProtocolSettings → List HubProtocol → Option (HubProtocol × String)
select_data_plane_endpoint endpoints protocols preferred =
    select_from endpoints protocols (preference preferred)
