-- ===== src/Intents/Asked.antt =====
-- intents.go: the languages that `askedLanguages` keeps.
use mathlib.Core.Path.{subst}
use text.Mathlib.Text.{◌==◌ as str_eq}
use thalovant_go_sdk.Prelude.{
  Bool, true, false, ◌||◌, some, String, List, [], ◌∷◌, ◌++◌, ◌≡◌, refl, Bool-cases, inl, inr, All,
  if◌then◌else◌, arith,
}
use thalovant_go_sdk.Intents.{contains_language, ask_languages, some_asked, asked_languages}
use thalovant_go_sdk.Intents.Keys.{Apart, Apart-append_one}

of_some : (x y : List String) → some x ≡ some y → x ≡ y
of_some x y h = cc

kept : (xs ys : List String) → some_asked xs ≡ some ys → xs ≡ ys
kept [] ys h = cc
kept (x ∷ xs) ys h = of_some (x ∷ xs) ys h

module _ (same : String → String → Bool) (trim : String → String) where
  contains-append :
      (ks js : List String) (t : String)
      → contains_language same (ks ++ js) t
        ≡ (contains_language same ks t || contains_language same js t)
  unfolding contains_language
  contains-append [] js t = refl
  contains-append (k ∷ ks) js t = ground (arith, contains-append ks js t)

  none_contained :
      (ks : List String) (t : String)
      → contains_language same ks t ≡ false
      → All (λ k. same k t ≡ false) ks
  unfolding contains_language
  none_contained [] t h = tt
  none_contained (k ∷ ks) t h = (ground arith, none_contained ks t (ground arith))

  -- The list with one more language asked for.
  with_one : String → List String → List String
  with_one lang asked =
      if str_eq (trim lang) "" || contains_language same asked (trim lang)
      then asked
      else asked ++ trim lang ∷ []

  with_one-Apart :
      (lang : String) (asked : List String) → Apart same asked → Apart same (with_one lang asked)
  unfolding with_one
  with_one-Apart lang asked h =
      elim (Bool-cases (str_eq (trim lang) "" || contains_language same asked (trim lang))) [
        | inl e ↦ rw e h
        | inr e ↦ rw e (
            Apart-append_one same asked (trim lang) h
              (none_contained asked (trim lang) (ground arith)))
      ]

  with_one-contains :
      (lang : String) (asked : List String) (t : String)
      → contains_language same asked t ≡ true
      → contains_language same (with_one lang asked) t ≡ true
  unfolding with_one
  with_one-contains lang asked t h =
      elim (Bool-cases (str_eq (trim lang) "" || contains_language same asked (trim lang))) [
        | inl e ↦ rw e h
        | inr e ↦ rw e (ground (arith, contains-append asked (trim lang ∷ []) t))
      ]

  with_one-Represents :
      (lang : String) (asked : List String)
      → same (trim lang) (trim lang) ≡ true
      → (str_eq (trim lang) "" || contains_language same (with_one lang asked) (trim lang)) ≡ true
  unfolding with_one contains_language
  with_one-Represents lang asked h =
      ground (arith, contains-append asked (trim lang ∷ []) (trim lang))

  ask-contains :
      (asked langs : List String) (t : String)
      → contains_language same asked t ≡ true
      → contains_language same (ask_languages same trim asked langs) t ≡ true
  unfolding ask_languages with_one
  ask-contains asked [] t h = h
  ask-contains asked (lang ∷ langs) t h =
      ask-contains (with_one lang asked) langs t (with_one-contains lang asked t h)

  ask-Apart :
      (asked langs : List String)
      → Apart same asked
      → Apart same (ask_languages same trim asked langs)
  unfolding ask_languages with_one
  ask-Apart asked [] h = h
  ask-Apart asked (lang ∷ langs) h =
      ask-Apart (with_one lang asked) langs (with_one-Apart lang asked h)

  abbrev pub Represents : List String → String → Type 0
  Represents asked lang = (str_eq (trim lang) "" || contains_language same asked (trim lang)) ≡ true

  ask-Represents :
      (asked langs : List String)
      → ((t : String) → same t t ≡ true)
      → All (Represents (ask_languages same trim asked langs)) langs
  unfolding ask_languages with_one
  ask-Represents asked [] h = tt
  ask-Represents asked (lang ∷ langs) h = (
    ground (
      arith,
      with_one-Represents lang asked (h (trim lang)),
      ask-contains (with_one lang asked) langs (trim lang),
    ),
    ask-Represents (with_one lang asked) langs h,
  )

  -- Of the languages given, no two that are kept are the same language, and each that is not blank
  -- has one that is.
  pub asked_languages_cover :
      (langs asked : List String)
      → ((t : String) → same t t ≡ true)
      → asked_languages same trim langs ≡ some asked
      → Apart same asked × All (Represents asked) langs
  unfolding asked_languages
  asked_languages_cover [] asked h e =
      (subst (Apart same) (of_some ("en-us" ∷ []) asked e) (tt, tt), tt)
  asked_languages_cover (lang ∷ langs) asked h e =
      let same_list = kept (ask_languages same trim [] (lang ∷ langs)) asked e in
      (
        subst (Apart same) same_list (ask-Apart [] (lang ∷ langs) tt),
        subst (λ l. All (Represents l) (lang ∷ langs)) same_list
            (ask-Represents [] (lang ∷ langs) h),
      )
