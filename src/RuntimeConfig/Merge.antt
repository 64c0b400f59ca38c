-- ===== src/RuntimeConfig/Merge.antt =====
-- control.go: what `mergeRuntimeConfig` writes and what it leaves.
use text.Mathlib.Text.{◌==◌ as str_eq}
use text.Mathlib.TextEquality.{eq_iff}
use thalovant_go_sdk.Prelude.{
  Bool, true, false, not, is_some, Option, none, some, String, List, [], ◌∷◌, ◌≡◌, ◌∙◌, sym, ap,
  refl, Bool-cases, inl, inr, if◌then◌else◌, arith,
}
use thalovant_go_sdk.RuntimeConfig.{
  Value, leaf, items, object, ConfigMembers, no_members, member, find, set, merge_into, merge_value,
  merge_runtime_config,
}

unfoldable mutual
  -- No key of an object stands twice, at any depth that `mergeRuntimeConfig` reaches.
  pub IsTree : {L : Type 0} → Value L → Type 0
  IsTree (leaf x) = Unit {0}
  IsTree (items xs) = Unit {0}
  IsTree (object m) = IsMap m

  pub IsMap : {L : Type 0} → ConfigMembers L → Type 0
  IsMap no_members = Unit {0}
  IsMap (member k v m) = (find m k ≡ none) × IsTree v × IsMap m

module _ {L : Type 0} where
  some_same : (v w : Value L) → some v ≡ some w → v ≡ w
  some_same v w h = cc

  find-set :
      (m : ConfigMembers L) (k : String) (v : Value L) (j : String)
      → find (set m k v) j ≡ (if str_eq k j then some v else find m j)
  unfolding find set
  find-set no_members k v j = ground arith
  find-set (member i w m) k v j =
      ground (arith, find-set m k v j, eq_iff i k, eq_iff k j, eq_iff i j)

  abbrev merged : Option (Value L) → Option (Value L) → Option (Value L) → Option (Value L)
  merged none old kept = kept
  merged (some v) old kept = some (merge_value old v)

  -- What is at the end of the keys `p`, from a value on.
  unfoldable pub at : Option (Value L) → List String → Option (Value L)
  at o [] = o
  at o (j ∷ p) = elim o [ some (object m) ↦ at (find m j) p | _ ↦ none ]

  -- The delta has nothing at `p`, nor a value that takes the place of what is there.
  unfoldable pub misses : Option (Value L) → List String → Bool
  misses o [] = not (is_some o)
  misses o (j ∷ p) = elim o [ none ↦ true | some (object m) ↦ misses (find m j) p | _ ↦ false ]

  abbrev pub is_object : Value L → Bool
  is_object (object m) = true
  is_object _ = false

  merge_step :
      (b : Bool) (in_delta of_k of_j kept : Option (Value L)) (v : Value L)
      → (b ≡ true → (in_delta ≡ none) × (of_j ≡ of_k))
      → merged in_delta of_k (if b then some (merge_value of_j v) else kept)
        ≡ merged (if b then some v else in_delta) of_k kept
  merge_step true in_delta of_k of_j kept v h =
      rw (h refl).0 (ap (λ o. some (merge_value o v)) (h refl).1)
  merge_step false in_delta of_k of_j kept v h = refl

  pub find-merge_into :
      (base result delta : ConfigMembers L) (k : String)
      → IsMap delta
      → find (merge_into base result delta) k ≡ merged (find delta k) (find base k) (find result k)
  unfolding merge_into IsMap find
  find-merge_into base result no_members k h = refl
  find-merge_into base result (member j v delta) k h =
      find-merge_into base (set result j (merge_value (find base j) v)) delta k h.2
      ∙ ap (merged (find delta k) (find base k)) (find-set result j (merge_value (find base j) v) k)
      ∙ merge_step (str_eq j k) (find delta k) (find base k) (find base j) (find result k) v
          (λ e. (sym (ap (find delta) ((eq_iff j k).0 e)) ∙ h.0, ap (find base) ((eq_iff j k).0 e)))

  TreeIn : Option (Value L) → Type 0
  TreeIn none = Unit {0}
  TreeIn (some v) = IsTree v

  find-IsTree : (d : ConfigMembers L) (k : String) → IsMap d → TreeIn (find d k)
  unfolding IsMap find TreeIn
  find-IsTree no_members k h = tt
  find-IsTree (member j w d) k h = elim (Bool-cases (str_eq j k)) [
    | inl same ↦ rw same (h.1)
    | inr other ↦ rw other (find-IsTree d k h.2)
  ]

  merge_plain : (old : Option (Value L)) (v : Value L) → is_object v ≡ false → merge_value old v ≡ v
  unfolding merge_value
  merge_plain none v h = refl
  merge_plain (some (leaf x)) v h = refl
  merge_plain (some (items xs)) v h = refl
  merge_plain (some (object m)) (leaf x) h = refl
  merge_plain (some (object m)) (items xs) h = refl
  merge_plain (some (object m)) (object n) h = cc

  written :
      (old new : Option (Value L)) (p : List String) (v : Value L)
      → TreeIn new
      → at new p ≡ some v
      → is_object v ≡ false
      → at (merged new old old) p ≡ some v
  unfolding at TreeIn IsTree merge_value
  written old none [] v h e plain = cc
  written old (some w) [] v h e plain =
      ap (λ u. some (merge_value old u)) (some_same w v e)
      ∙ ap (λ u. some u) (merge_plain old v plain)
  written old none (j ∷ p) v h e plain = cc
  written old (some (leaf x)) (j ∷ p) v h e plain = cc
  written old (some (items xs)) (j ∷ p) v h e plain = cc
  written none (some (object n)) (j ∷ p) v h e plain = e
  written (some (leaf x)) (some (object n)) (j ∷ p) v h e plain = e
  written (some (items xs)) (some (object n)) (j ∷ p) v h e plain = e
  written (some (object m)) (some (object n)) (j ∷ p) v h e plain =
      ap (λ o. at o p) (find-merge_into m m n j h)
      ∙ written (find m j) (find n j) p v (find-IsTree n j h) e plain

  kept_at :
      (old new : Option (Value L)) (p : List String) (v : Value L)
      → TreeIn new
      → misses new p ≡ true
      → at old p ≡ some v
      → at (merged new old old) p ≡ some v
  unfolding at misses TreeIn IsTree merge_value
  kept_at old none p v h free e = e
  kept_at old (some w) [] v h free e = cc
  kept_at old (some (leaf x)) (j ∷ p) v h free e = cc
  kept_at old (some (items xs)) (j ∷ p) v h free e = cc
  kept_at none (some (object n)) (j ∷ p) v h free e = cc
  kept_at (some (leaf x)) (some (object n)) (j ∷ p) v h free e = cc
  kept_at (some (items xs)) (some (object n)) (j ∷ p) v h free e = cc
  kept_at (some (object m)) (some (object n)) (j ∷ p) v h free e =
      ap (λ o. at o p) (find-merge_into m m n j h)
      ∙ kept_at (find m j) (find n j) p v (find-IsTree n j h) free e

  -- A value of the delta that is not an object stands in the result, at its place.
  pub merge-written :
      (base delta : ConfigMembers L) (p : List String) (v : Value L)
      → IsMap delta
      → at (some (object delta)) p ≡ some v
      → is_object v ≡ false
      → at (some (object (merge_runtime_config base delta))) p ≡ some v
  unfolding merge_runtime_config merge_value TreeIn IsTree
  merge-written base delta p v h e plain =
      written (some (object base)) (some (object delta)) p v h e plain

  -- A value of the base stays where the delta has neither a value nor one that takes the place of
  -- an object above it.
  pub merge-kept :
      (base delta : ConfigMembers L) (p : List String) (v : Value L)
      → IsMap delta
      → misses (some (object delta)) p ≡ true
      → at (some (object base)) p ≡ some v
      → at (some (object (merge_runtime_config base delta))) p ≡ some v
  unfolding merge_runtime_config merge_value TreeIn IsTree
  merge-kept base delta p v h free e =
      kept_at (some (object base)) (some (object delta)) p v h free e
