-- ===== src/Protocols/Endpoints.antt =====
-- protocols.go: the endpoints that a hub's description names, or that follow from its domain.
use text.Mathlib.Text.{◌==◌ as str_eq}
use Prim.Native.String.{◌++◌ as str_append}
use thalovant_go_sdk.Prelude.{
  Bool, false, ◌&&◌, ◌||◌, Option, none, some, String, List, [], ◌∷◌, if◌then◌else◌,
}
use thalovant_go_sdk.Client.{HubProtocol, https, wss, mqtt}
use thalovant_go_sdk.Protocols.{
  Value, nil, flag, string, other, map_of, string_map, Map, GoEndpoints, entry_at, map_from_any,
  first_key, protocol_settings_from_map, HubDataPlaneEndpoints,
}

module _ (g : GoEndpoints) where
  unfoldable pub optional : Option Value → String
  optional none = ""
  optional (some nil) = ""
  optional (some (flag b)) = g.trim (g.flag_text b)
  optional (some (string s)) = g.trim s
  optional (some (other s)) = g.trim s
  optional (some (map_of m)) = g.trim (g.map_text m)
  optional (some (string_map m)) = g.trim (g.string_map_text m)

  abbrev pub is_endpoint_scheme : Option String → Bool
  is_endpoint_scheme none = false
  is_endpoint_scheme (some s) =
      str_eq s "http"
      || (str_eq s "https"
          || (str_eq s "ws" || (str_eq s "wss" || (str_eq s "mqtt" || str_eq s "mqtts"))))

  unfoldable pub normalize_endpoint : String → String
  normalize_endpoint endpoint =
      if str_eq endpoint ""
      then ""
      else if is_endpoint_scheme (g.scheme endpoint)
      then g.trim_slashes endpoint
      else ""

  -- The prefixes that it is called with do not both fit, so their order does not matter.
  unfoldable pub replace_any_prefix : String → List (String × String) → String
  replace_any_prefix s [] = s
  replace_any_prefix s ((prefix, replacement) ∷ rest) =
      if g.has_prefix s prefix
      then str_append replacement (g.trim_prefix s prefix)
      else replace_any_prefix s rest

  unfoldable pub endpoint_from_domain : String → HubProtocol → String
  endpoint_from_domain domain mqtt = ""
  endpoint_from_domain domain wss =
      let normalized = g.trim_slashes (g.trim domain) in
      if g.has_prefix normalized "wss://" || g.has_prefix normalized "ws://"
      then normalize_endpoint (g.trim normalized)
      else if g.has_prefix normalized "https://" || g.has_prefix normalized "http://"
      then normalize_endpoint (
          g.trim
            (replace_any_prefix normalized (("https://", "wss://") ∷ ("http://", "wss://") ∷ [])))
      else normalize_endpoint (g.trim (str_append "wss://" normalized))
  endpoint_from_domain domain https =
      let normalized = g.trim_slashes (g.trim domain) in
      if g.has_prefix normalized "https://" || g.has_prefix normalized "http://"
      then normalize_endpoint
          (g.trim (replace_any_prefix normalized (("http://", "https://") ∷ [])))
      else if g.has_prefix normalized "wss://" || g.has_prefix normalized "ws://"
      then normalize_endpoint (
          g.trim
            (replace_any_prefix normalized (("wss://", "https://") ∷ ("ws://", "https://") ∷ [])))
      else normalize_endpoint (g.trim (str_append "https://" normalized))

  -- The map under the first of the keys that holds one, or the values themselves.
  unfoldable pub endpoints_source : Map → List String → Map
  endpoints_source values [] = values
  endpoints_source values (key ∷ keys) = elim (map_from_any (entry_at values key)) [
    | some m ↦ m
    | none ↦ endpoints_source values keys
  ]

  unfoldable pub data_plane_endpoints_from_map : Option Map → HubDataPlaneEndpoints
  data_plane_endpoints_from_map none = record { https_url = ""; wss_url = ""; mqtt_url = "" }
  data_plane_endpoints_from_map (some values) =
      let source =
        endpoints_source values
          ("data_plane_endpoints" ∷ "dataPlaneEndpoints" ∷ "endpoints" ∷ []) in
      record {
        https_url = normalize_endpoint (optional (first_key source ("https" ∷ "http" ∷ [])));
        wss_url = normalize_endpoint (optional (first_key source ("wss" ∷ "ws" ∷ [])));
        mqtt_url = normalize_endpoint (optional (first_key source ("mqtt" ∷ "mqtts" ∷ [])));
      }

  abbrev pub domain_of : Option Map → String
  domain_of none = ""
  domain_of (some hub) = optional (first_key hub ("domain" ∷ []))

  unfoldable pub data_plane_endpoints_from_hub : Option Map → HubDataPlaneEndpoints
  data_plane_endpoints_from_hub hub =
      let endpoints = data_plane_endpoints_from_map hub in
      let settings = protocol_settings_from_map g hub in
      let domain = domain_of hub in
      if str_eq domain "" then endpoints else record {
        https_url =
            if str_eq endpoints.https_url "" && settings.http_on
            then endpoint_from_domain domain https
            else endpoints.https_url;
        wss_url =
            if str_eq endpoints.wss_url "" && settings.wss_on
            then endpoint_from_domain domain wss
            else endpoints.wss_url;
        mqtt_url = endpoints.mqtt_url;
      }
