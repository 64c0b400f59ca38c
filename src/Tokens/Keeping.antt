-- ===== src/Tokens/Keeping.antt =====
-- device_login.go: the token of the last sign-in is kept until it is revoked.
use text.Mathlib.Text.{◌==◌ as str_eq}
use text.Mathlib.TextEquality.{eq_iff}
use mathlib.Core.Path.{subst}
use thalovant_go_sdk.Prelude.{
  ℕ, zero, suc, not, Bool, true, false, ◌||◌, ◌&&◌, ◌==◌, Option, none, some, All, String, List, [],
  ◌∷◌, ◌≡◌, ◌⊎◌, refl, inl, inr, arith, if◌then◌else◌, Option-cases,
}
use thalovant_go_sdk.Deletion.{ApiErr, api_status, other, is_api_status}
use thalovant_go_sdk.DeviceLogin.{Token}
use thalovant_go_sdk.Tokens.{
  accept_token, Revoking, forget_token, finish_revoke, Step, signed_in, begins, answered, World,
  nth, Said, step, run, counts_as_revoked, begin_revoke, set_off, Begun, already_revoked,
  nothing_to_revoke, revoking, ControlTokens,
}

-- 401: the API does not know the token that signed the request.
abbrev pub is_unauthorized : ApiErr → Bool
is_unauthorized (api_status n) = n == 401
is_unauthorized other = false

-- The API said that the token with the id is gone: it revoked it, or did not know it when the
-- control plane held it.
unfoldable pub says_gone : Said → String → Bool
says_gone x id =
    str_eq x.target id
    && elim x.answer [ none ↦ true | some e ↦ str_eq x.held id && is_unauthorized e ]

unfoldable pub has_gone : List Said → String → Bool
has_gone [] id = false
has_gone (x ∷ xs) id = says_gone x id || has_gone xs id

-- A revocation counts as one of the token in use only when it is of the token that was held.
unfoldable pub IsKnown : Revoking × String → Type 0
IsKnown (r, held) = r.own ≡ true → str_eq r.target held ≡ true

-- The token of the last sign-in: a sign-in without an access token is none.
unfoldable pub last_token : Token → List Step → Token
last_token t [] = t
last_token t (signed_in u ∷ xs) = last_token (if str_eq u.access_token "" then t else u) xs
last_token t (begins i ∷ xs) = last_token t xs
last_token t (answered n a ∷ xs) = last_token t xs

-- The tokens are those of the sign-in `t`, or they were forgotten, and the API had said since then that
-- the token with that id is gone.
unfoldable pub Holds : Token → World → Type 0
Holds t w =
    (w.tokens
      ≡ record { access_token = t.access_token; token_id = t.token_id; revoked_own = false })
    ⊎ ((w.tokens ≡ record { access_token = ""; token_id = ""; revoked_own = true })
        × (has_gone w.said t.token_id ≡ true))

finish-Holds :
    (t : Token) (w : World) (r : Revoking) (held : String) (answer : Option ApiErr)
    → IsKnown (r, held)
    → Holds t w
    → Holds t (record w {
      tokens = (finish_revoke w.tokens r answer).0;
      said = record { target = r.target; held = held; answer = answer } ∷ w.said;
    })
unfolding Holds finish_revoke forget_token counts_as_revoked says_gone has_gone IsKnown
    is_api_status
finish-Holds t w r held none k (inl e) =
    ground (arith, eq_iff w.tokens.token_id r.target, eq_iff r.target t.token_id)
finish-Holds t w r held (some other) k (inl e) = ground arith
finish-Holds t w r held (some (api_status n)) k (inl e) = ground (
  arith,
  eq_iff w.tokens.token_id r.target,
  eq_iff r.target t.token_id,
  eq_iff r.target held,
  eq_iff held t.token_id,
)
finish-Holds t w r held answer k (inr (e, i)) = ground arith

nth-IsKnown :
    (rs : List (Revoking × String)) (n : ℕ) (r : Revoking × String)
    → All IsKnown rs
    → nth rs n ≡ some r
    → IsKnown r
nth-IsKnown [] n r h e = cc
nth-IsKnown (x ∷ rs) zero r h e = subst IsKnown (ground arith) (h.0)
nth-IsKnown (x ∷ rs) (suc n) r h e = nth-IsKnown rs n r (h.1) e

set_off-IsKnown :
    (rs : List (Revoking × String)) (held : String) (b : Bool) (x y : Begun)
    → All IsKnown (set_off rs held x)
    → All IsKnown (set_off rs held y)
    → All IsKnown (set_off rs held (if b then x else y))
set_off-IsKnown rs held true x y h k = h
set_off-IsKnown rs held false x y h k = k

own-IsKnown :
    (rs : List (Revoking × String)) (target held : String) (b : Bool)
    → All IsKnown rs
    → All IsKnown
        (set_off rs held (revoking (record { target = target; own = b && str_eq target held })))
unfolding IsKnown
own-IsKnown rs target held b h = (λ own. ground arith, h)

begin_revoke-IsKnown :
    (trim : String → String) (c : ControlTokens) (token_id : String) (rs : List (Revoking × String))
    → All IsKnown rs
    → All IsKnown (set_off rs c.token_id (begin_revoke trim c token_id))
unfolding begin_revoke
begin_revoke-IsKnown trim c token_id rs h =
    let target = if str_eq (trim token_id) "" then c.token_id else trim token_id in
    set_off-IsKnown rs c.token_id (str_eq target "") _ _
      (set_off-IsKnown rs c.token_id (c.revoked_own && str_eq c.access_token "") already_revoked
        nothing_to_revoke h h)
      (own-IsKnown rs target c.token_id (not (str_eq target "")) h)

step-IsKnown :
    (trim : String → String) (w : World) (x : Step)
    → All IsKnown w.on_their_way
    → All IsKnown (step trim w x).on_their_way
unfolding step
step-IsKnown trim w (signed_in u) h = h
step-IsKnown trim w (begins i) h = begin_revoke-IsKnown trim w.tokens i w.on_their_way h
step-IsKnown trim w (answered n a) h = elim (Option-cases (nth w.on_their_way n)) [
  | inl e ↦ rw e h
  | inr (r, e) ↦ rw e h
]

step-Holds :
    (trim : String → String) (t : Token) (w : World) (x : Step)
    → All IsKnown w.on_their_way
    → Holds t w
    → Holds (last_token t (x ∷ [])) (step trim w x)
unfolding Holds step last_token accept_token
step-Holds trim t w (signed_in u) k h = ground arith
step-Holds trim t w (begins i) k h = h
step-Holds trim t w (answered n a) k h = elim (Option-cases (nth w.on_their_way n)) [
  | inl e ↦ rw e h
  | inr ((r, held), e) ↦
      rw e (finish-Holds t w r held a (nth-IsKnown w.on_their_way n (r, held) k e) h)
]

last_token_cons :
    (t : Token) (x : Step) (xs : List Step)
    → last_token t (x ∷ xs) ≡ last_token (last_token t (x ∷ [])) xs
unfolding last_token
last_token_cons t (signed_in u) xs = refl
last_token_cons t (begins i) xs = refl
last_token_cons t (answered n a) xs = refl

-- Whatever sign-ins and revocations run beside one another, from a state in which a revocation on
-- its way counts as the own token's only when it is of the token held when it began: a control
-- plane that holds the token of a sign-in, or has forgotten it because the API said that it is
-- gone, goes on to do so for the last sign-in. It holds that sign-in's token with that sign-in's
-- id, or nothing; and nothing only when the API, since that sign-in, confirmed the revocation of
-- that id, or answered 401 to one that began while that id was held.
pub run-Holds :
    (trim : String → String) (t : Token) (w : World) (xs : List Step)
    → All IsKnown w.on_their_way
    → Holds t w
    → Holds (last_token t xs) (run trim w xs)
unfolding run last_token
run-Holds trim t w [] k h = h
run-Holds trim t w (x ∷ xs) k h = rw (last_token_cons t x xs) (
    run-Holds trim (last_token t (x ∷ [])) (step trim w x) xs (step-IsKnown trim w x k)
      (step-Holds trim t w x k h))
