-- ===== src/Routing/Turns.antt =====
-- client.go: where a reply goes, and what it keeps.
use text.Mathlib.Text.{◌==◌ as str_eq}
use text.Mathlib.TextEquality.{eq_iff}
use thalovant_go_sdk.Prelude.{none, String, [], ◌∷◌, ◌≡◌, ◌≢◌, arith, if◌then◌else◌}
use thalovant_go_sdk.Routing.{
  Context, lookup, get, delete, is_nil, first_of, turn_source, turn_destination, reply_context,
}

module _ {A : Type 0} where
  lookup-delete :
      (m : Context A) (j k : String)
      → lookup (delete m j) k ≡ (if str_eq j k then none else lookup m k)
  unfolding lookup delete
  lookup-delete [] j k = ground arith
  lookup-delete ((i, v) ∷ m) j k =
      ground (arith, eq_iff i j, eq_iff i k, eq_iff j k, lookup-delete m j k)

  -- A reply goes to whoever the request came from, and to nobody when that is unknown. It comes
  -- from whoever the request was for, the first when that is a list, or from the request's source
  -- when it was for nobody. Every other entry is the request's.
  pub get-reply_context :
      (m : Context A) (k : String)
      → k ≢ "source"
      → k ≢ "destination"
      → (get (reply_context m) "destination" ≡ get m "source")
        × (get (reply_context m) "source" ≡ (
            if is_nil (get m "destination")
            then get m "source"
            else first_of (get m "destination")))
        × (lookup (reply_context m) k ≡ lookup m k)
  unfolding reply_context turn_source turn_destination get lookup
  get-reply_context m k s d = ground (
    arith,
    eq_iff "source" k,
    eq_iff "destination" k,
    lookup-delete (turn_source m (get m "destination")) "destination" "destination",
    lookup-delete (turn_source m (get m "destination")) "destination" "source",
    lookup-delete (turn_source m (get m "destination")) "destination" k,
  )
