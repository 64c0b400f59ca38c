-- ===== src/Prologue/Order.antt =====
-- noise.go: canonical JSON does not depend on the order in which a map lists its entries.
use thalovant_go_sdk.Prelude.{
  Option, none, some, List, [], ◌∷◌, ◌≡◌, refl, sym, ◌∙◌, Bool-cases, if◌then◌else◌, inl, inr,
}
use thalovant_go_sdk.Prologue.{
  Text, Json, array, object, Items, end, item, Members, no_members, member, text_eq, Written,
  written_at, write_more, write_members, keys, write_canonical, write_items, write_values,
  build_prologue,
}

unfoldable pub value_at : {F : Type 0} → Members F → Text → Option (Json F)
value_at no_members key = none
value_at (member k v m) key = let rest = value_at m key in if text_eq k key then some v else rest

-- The same value, whatever the order of the entries of its maps: the keys alike, and each key has
-- the same value in both.
module _ {F : Type 0} (sort : List Text → List Text) where
  mutual
    pub data Same : Json F → Json F → Type 0 where
      atom : (v : Json F) → Same v v
      arrays : (a b : Items F) → SameItems a b → Same (array a) (array b)
      objects :
          (m n : Members F)
          → sort (keys m) ≡ sort (keys n)
          → ((k : Text) → SameAt (value_at m k) (value_at n k))
          → Same (object m) (object n)

    pub data SameItems : Items F → Items F → Type 0 where
      ends : SameItems end end
      items :
          (v w : Json F) (a b : Items F)
          → Same v w
          → SameItems a b
          → SameItems (item v a) (item w b)

    pub data SameAt : Option (Json F) → Option (Json F) → Type 0 where
      neither : SameAt none none
      both : (v w : Json F) → Same v w → SameAt (some v) (some w)

module _ {F : Type 0} (format_float : F → Text) (sort : List Text → List Text) where
  -- What was written under a key is what is written of its value.
  abbrev written_of : Option (Json F) → Option Text
  written_of none = none
  written_of (some v) = write_canonical format_float sort v

  written_at_lem :
      (m : Members F) (k : Text)
      → written_at (write_values format_float sort m) k ≡ written_of (value_at m k)
  unfolding written_at value_at write_canonical
  written_at_lem no_members k = refl
  written_at_lem (member k' v m) k = elim (Bool-cases (text_eq k' k)) [
    | inl e ↦ rw e refl
    | inr e ↦ rw e (written_at_lem m k)
  ]

  write_more_same :
      (w w' : Written) (ks : List Text)
      → ((k : Text) → written_at w k ≡ written_at w' k)
      → write_more w ks ≡ write_more w' ks
  unfolding write_more
  write_more_same w w' [] same = refl
  write_more_same w w' (k ∷ ks) same = rw (same k, write_more_same w w' ks same) refl

  write_members_same :
      (w w' : Written) (ks : List Text)
      → ((k : Text) → written_at w k ≡ written_at w' k)
      → write_members w ks ≡ write_members w' ks
  unfolding write_members
  write_members_same w w' [] same = refl
  write_members_same w w' (k ∷ ks) same = rw (same k, write_more_same w w' ks same) refl

  mutual
    unfolding write_canonical

    write_canonical-Same :
        (v w : Json F)
        → Same sort v w
        → write_canonical format_float sort v ≡ write_canonical format_float sort w
    write_canonical-Same v w (atom u) = refl
    write_canonical-Same v w (arrays a b s) = rw (write_items-Same a b s) refl
    write_canonical-Same v w (objects m n e f) =
        rw
          (
            e,
            write_members_same _ _ (sort (keys n))
                (λ k. written_at_lem m k ∙ (written_of-Same _ _ (f k) ∙ sym (written_at_lem n k))),
          )
          refl

    write_items-Same :
        (a b : Items F)
        → SameItems sort a b
        → write_items format_float sort a ≡ write_items format_float sort b
    write_items-Same a b ends = refl
    write_items-Same a b (items v w end end s ends) = write_canonical-Same v w s
    write_items-Same a b (items v w end (item w' ws) s rest) = elim rest [ ]
    write_items-Same a b (items v w (item v' vs) end s rest) = elim rest [ ]
    write_items-Same a b (items v w (item v' vs) (item w' ws) s rest) =
        rw (write_canonical-Same v w s, write_items-Same (item v' vs) (item w' ws) rest) refl

    written_of-Same : (a b : Option (Json F)) → SameAt sort a b → written_of a ≡ written_of b
    written_of-Same a b neither = refl
    written_of-Same a b (both v w s) = write_canonical-Same v w s

-- The bytes of a prologue do not depend on the order in which the two payloads, or the maps inside
-- them, list their entries, when sort.Strings sorts the keys of both orders alike.
pub build_prologue-Same :
    {F : Type 0} (format_float : F → Text) (sort : List Text → List Text) (a b c d : Members F)
    (name : Text)
    → Same sort (object a) (object b)
    → Same sort (object c) (object d)
    → build_prologue format_float sort a c name ≡ build_prologue format_float sort b d name
unfolding build_prologue
build_prologue-Same format_float sort a b c d name s t =
    rw
      (
        write_canonical-Same format_float sort (object a) (object b) s,
        write_canonical-Same format_float sort (object c) (object d) t,
      )
      refl
