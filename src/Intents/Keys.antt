-- ===== src/Intents/Keys.antt =====
-- intents.go: the keys under which `Intents` keeps its listings.
use text.Mathlib.TextEquality.{eq_iff}
use thalovant_go_sdk.Prelude.{
  Bool, true, false, ◌||◌, String, List, [], ◌∷◌, ◌++◌, ◌≡◌, refl, ◌⊎◌, Bool-cases, inl, inr, All,
  if◌then◌else◌, arith,
}
use thalovant_go_sdk.Intents.{Rows, has_tag}
use thalovant_go_sdk.Intents.Reading.{key_of_language, put_rows}

abbrev pub keys_of : List (String × Rows) → List String
keys_of [] = []
keys_of ((k, rs) ∷ ls) = k ∷ keys_of ls

-- No key is the language of one before it.
abbrev pub Apart : (String → String → Bool) → List String → Type 0
Apart same [] = Unit {0}
Apart same (k ∷ ks) = All (λ j. same k j ≡ false) ks × Apart same ks

pub has_tag-append :
    (ks js : List String) (t : String) → has_tag (ks ++ js) t ≡ (has_tag ks t || has_tag js t)
unfolding has_tag
has_tag-append [] js t = refl
has_tag-append (k ∷ ks) js t = ground (arith, has_tag-append ks js t)

pub All-append_one :
    (P : String → Type 0) (ks : List String) (t : String) → All P ks → P t → All P (ks ++ t ∷ [])
All-append_one P [] t h p = (p, tt)
All-append_one P (k ∷ ks) t h p = (h.0, All-append_one P ks t h.1 p)

keys_of-put_rows :
    (ls : List (String × Rows)) (t : String) (rs : Rows)
    → keys_of (put_rows ls t rs)
      ≡ (if has_tag (keys_of ls) t then keys_of ls else keys_of ls ++ t ∷ [])
unfolding put_rows has_tag
keys_of-put_rows [] t rs = refl
keys_of-put_rows ((k, old) ∷ ls) t rs = ground (arith, keys_of-put_rows ls t rs)

module _ (same : String → String → Bool) where
  pub Apart-append_one :
      (ks : List String) (t : String)
      → Apart same ks
      → All (λ k. same k t ≡ false) ks
      → Apart same (ks ++ t ∷ [])
  Apart-append_one [] t h all = (tt, tt)
  Apart-append_one (k ∷ ks) t h all =
      (All-append_one (λ j. same k j ≡ false) ks t h.0 all.0, Apart-append_one ks t h.1 all.1)

  key_of_language_cases :
      (ls : List (String × Rows)) (t : String)
      → (has_tag (keys_of ls) (key_of_language same ls t) ≡ true)
        ⊎ ((key_of_language same ls t ≡ t) × All (λ k. same k t ≡ false) (keys_of ls))
  unfolding key_of_language has_tag
  key_of_language_cases [] t = inr (refl, tt)
  key_of_language_cases ((k, rs) ∷ ls) t = elim (Bool-cases (same k t)) [
    | inl e ↦ inl (rw (key_of_language, e) (ground (arith, eq_iff k k)))
    | inr e ↦ elim (key_of_language_cases ls t) [
      | inl listed ↦ inl (rw (key_of_language, e) (ground arith))
      | inr (new, all) ↦ inr (rw (key_of_language, e) new, (e, all))
    ]
  ]

  either :
      (b : Bool) (ks js : List String)
      → Apart same ks
      → Apart same js
      → Apart same (if b then ks else js)
  either true ks js h k = h
  either false ks js h k = k

  pub put_rows-Apart :
      (ls : List (String × Rows)) (t : String) (rs : Rows)
      → Apart same (keys_of ls)
      → Apart same (keys_of (put_rows ls (key_of_language same ls t) rs))
  put_rows-Apart ls t rs h =
      rw (keys_of-put_rows ls (key_of_language same ls t) rs) (elim (key_of_language_cases ls t) [
        | inl listed ↦ rw listed h
        | inr (new, all) ↦ rw new (
            either (has_tag (keys_of ls) t) (keys_of ls) (keys_of ls ++ t ∷ []) h
              (Apart-append_one (keys_of ls) t h all))
      ])

  pub put_rows-has_key :
      (ls : List (String × Rows)) (t : String) (rs : Rows)
      → has_tag (keys_of (put_rows ls t rs)) t ≡ true
  unfolding has_tag
  put_rows-has_key ls t rs =
      rw (keys_of-put_rows ls t rs) (elim (Bool-cases (has_tag (keys_of ls) t)) [
        | inl e ↦ ground arith
        | inr e ↦ ground (arith, eq_iff t t, has_tag-append (keys_of ls) (t ∷ []) t)
      ])

  pub put_rows-keeps_key :
      (ls : List (String × Rows)) (t : String) (rs : Rows) (k : String)
      → has_tag (keys_of ls) k ≡ true
      → has_tag (keys_of (put_rows ls t rs)) k ≡ true
  put_rows-keeps_key ls t rs k h =
      rw (keys_of-put_rows ls t rs) (elim (Bool-cases (has_tag (keys_of ls) t)) [
        | inl e ↦ ground arith
        | inr e ↦ ground (arith, has_tag-append (keys_of ls) (t ∷ []) k)
      ])
