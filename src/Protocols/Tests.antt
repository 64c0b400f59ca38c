-- ===== src/Protocols/Tests.antt =====
-- Protocol settings and endpoints of protocols.go on concrete input.
use thalovant_go_sdk.Prelude.{true, false, none, some, [], ◌≡◌, refl}
use thalovant_go_sdk.Client.{https}
use thalovant_go_sdk.Protocols.{
  GoEndpoints, Map, empty, with_entry, map_of, HubProtocolSettings, HubDataPlaneEndpoints, spec_map,
  preference, select_from, select_data_plane_endpoint, is_enabled, endpoint_for,
}

abbrev go : GoEndpoints
go = record {
  trim = λ s. s;
  lower = λ s. s;
  has_prefix = λ s prefix. false;
  trim_prefix = λ s prefix. s;
  trim_slashes = λ s. s;
  flag_text = λ b. "";
  map_text = λ m. "";
  string_map_text = λ m. "";
  scheme = λ s. none;
}

abbrev both_on : HubProtocolSettings
both_on = record { wss_on = true; http_on = true; mqtt_on = false }

abbrev over_https : HubDataPlaneEndpoints
over_https = record { https_url = "https://hub"; wss_url = ""; mqtt_url = "mqtt://hub" }

over_https_selected : select_data_plane_endpoint over_https both_on [] ≡ some (https, "https://hub")
unfolding select_data_plane_endpoint preference select_from is_enabled endpoint_for
over_https_selected = refl

abbrev hub : Map
hub = with_entry "protocols" (map_of (spec_map both_on)) empty
