-- ===== src/Protocols/Selection.antt =====
-- protocols.go: the endpoint that is selected, and settings that are written and read again.
use text.Mathlib.Text.{◌==◌ as str_eq}
use thalovant_go_sdk.Prelude.{
  Bool, true, false, not, ◌&&◌, Option, none, some, String, List, [], ◌∷◌, ◌++◌, ◌≡◌, inl, inr,
  refl, ap, ◌∙◌, All, Bool-cases,
}
use thalovant_go_sdk.Client.{HubProtocol}
use thalovant_go_sdk.Protocols.{
  GoEndpoints, Map, map_of, HubProtocolSettings, entry_at, map_from_any, first_key, first_in,
  first_value, enabled_value, enabled_or, settings_of, protocol_settings_from_map, is_enabled,
  spec_map, HubDataPlaneEndpoints, endpoint_for, select_from, preference,
  select_data_plane_endpoint,
}

-- A protocol that is on and has an endpoint.
unfoldable pub is_served : HubDataPlaneEndpoints → HubProtocolSettings → HubProtocol → Bool
is_served e s p = is_enabled s p && not (str_eq (endpoint_for e p) "")

-- Nothing is selected when none of the protocols is served; else the first one that is.
unfoldable pub IsFirst :
    HubDataPlaneEndpoints
    → HubProtocolSettings
    → List HubProtocol
    → Option (HubProtocol × String)
    → Type 0
IsFirst e s order none = All (λ p. is_served e s p ≡ false) order
IsFirst e s order (some (p, endpoint)) =
    (before : List HubProtocol) × (rest : List HubProtocol) × (order ≡ before ++ (p ∷ rest))
    × All (λ q. is_served e s q ≡ false) before
    × (is_served e s p ≡ true)
    × (endpoint ≡ endpoint_for e p)

later-IsFirst :
    (e : HubDataPlaneEndpoints) (s : HubProtocolSettings) (p : HubProtocol)
    (order : List HubProtocol) (o : Option (HubProtocol × String))
    → is_served e s p ≡ false
    → IsFirst e s order o
    → IsFirst e s (p ∷ order) o
unfolding IsFirst
later-IsFirst e s p order none u f = (u, f)
later-IsFirst e s p order (some (q, endpoint)) u (before, rest, o, f, v, same) =
    (p ∷ before, rest, ap (λ l. p ∷ l) o, (u, f), v, same)

select_from-IsFirst :
    (e : HubDataPlaneEndpoints) (s : HubProtocolSettings) (order : List HubProtocol)
    → IsFirst e s order (select_from e s order)
unfolding select_from IsFirst is_served
select_from-IsFirst e s [] = tt
select_from-IsFirst e s (p ∷ order) = elim (Bool-cases (is_enabled s p)) [
  | inr off ↦
      rw off
        (later-IsFirst e s p order _ (rw (is_served, off) refl) (select_from-IsFirst e s order))
  | inl on ↦ elim (Bool-cases (str_eq (endpoint_for e p) "")) [
    | inl blank ↦
        rw (on, blank)
          (later-IsFirst e s p order _ (rw (is_served, on, blank) refl)
            (select_from-IsFirst e s order))
    | inr named ↦ rw (on, named) ([], order, refl, tt, rw (is_served, on, named) refl, refl)
  ]
]

-- What SelectDataPlaneEndpoint returns is the first protocol of the preference, or of the default
-- one when that is empty, that is on and has an endpoint, with its endpoint; nil when there is
-- none.
pub select_data_plane_endpoint-IsFirst :
    (e : HubDataPlaneEndpoints) (s : HubProtocolSettings) (preferred : List HubProtocol)
    → IsFirst e s (preference preferred) (select_data_plane_endpoint e s preferred)
unfolding select_data_plane_endpoint
select_data_plane_endpoint-IsFirst e s preferred = select_from-IsFirst e s (preference preferred)

from_settings :
    (g : GoEndpoints) (hub : Map)
    → map_from_any (entry_at hub "spec") ≡ none
    → protocol_settings_from_map g (some hub) ≡ settings_of g hub
unfolding protocol_settings_from_map
from_settings g hub no_spec = rw (protocol_settings_from_map, no_spec) refl

settings_of-spec_map :
    (g : GoEndpoints) (s : HubProtocolSettings) (hub : Map)
    → entry_at hub "protocols" ≡ some (map_of (spec_map s))
    → settings_of g hub ≡ s
unfolding settings_of first_value first_in first_key spec_map entry_at enabled_or enabled_value
    map_from_any
settings_of-spec_map g s hub protocols = rw (settings_of, protocols) refl

-- Settings are read back from a map that holds what SpecMap wrote under "protocols", and no map
-- under "spec".
pub protocol_settings_from_map-spec_map :
    (g : GoEndpoints) (s : HubProtocolSettings) (hub : Map)
    → map_from_any (entry_at hub "spec") ≡ none
    → entry_at hub "protocols" ≡ some (map_of (spec_map s))
    → protocol_settings_from_map g (some hub) ≡ s
protocol_settings_from_map-spec_map g s hub no_spec protocols =
    from_settings g hub no_spec ∙ settings_of-spec_map g s hub protocols
