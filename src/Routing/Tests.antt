-- ===== src/Routing/Tests.antt =====
-- The reply to a concrete request, and the theorem about replies applied to it.
use text.Mathlib.TextEquality.{eq_iff}
use thalovant_go_sdk.Prelude.{String, [], ◌∷◌, ◌≡◌, ◌≢◌, refl, if◌then◌else◌, arith}
use thalovant_go_sdk.Routing.{
  items, other, no_more, entry, Context, lookup, get, is_nil, first_of, turn_source,
  turn_destination, reply_context,
}
use thalovant_go_sdk.Routing.Turns.{get-reply_context}

-- A request from "ann" to two hubs.
abbrev request : Context String
request =
    ("source", other "ann")
    ∷ ("destination", items (entry (other "hub") (entry (other "spare") no_more)))
    ∷ ("session", other "s1")
    ∷ []

goes_to_ann : get (reply_context request) "destination" ≡ other "ann"
unfolding reply_context turn_source turn_destination get lookup
goes_to_ann = refl

abbrev session_key : String
session_key = "session"

not_source : session_key ≢ "source"
not_source = ground (arith, eq_iff session_key "source")

not_destination : session_key ≢ "destination"
not_destination = ground (arith, eq_iff session_key "destination")

get-reply_context_example :
    (get (reply_context request) "destination" ≡ get request "source")
    × (get (reply_context request) "source" ≡ (
        if is_nil (get request "destination")
        then get request "source"
        else first_of (get request "destination")))
    × (lookup (reply_context request) "session" ≡ lookup request "session")
get-reply_context_example = get-reply_context request "session" not_source not_destination
