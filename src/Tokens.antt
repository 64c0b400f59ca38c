-- ===== src/Tokens.antt =====
-- device_login.go and control.go: the token that a ControlPlane holds, what a sign-in and a revocation
-- do to it, and the requests that it signs.
--
-- The sections under the lock are the steps; a revocation has two, around its request, and other
-- steps may come between. Texts are trimmed by the parameter `trim`, which is strings.TrimSpace.
pub mod Keeping
mod Tests
use text.Mathlib.Text.{◌==◌ as str_eq}
use thalovant_go_sdk.Prelude.{
  ℕ, zero, suc, Bool, true, false, not, ◌&&◌, ◌||◌, Option, none, some, String, List, [], ◌∷◌, ◌==◌,
  if◌then◌else◌,
}
use thalovant_go_sdk.Deletion.{ApiErr, is_api_status}
use thalovant_go_sdk.DeviceLogin.{Token}

pub record ControlTokens : Type 0 where
  pub access_token : String
  pub token_id : String
  pub revoked_own : Bool

pub record ApiToken : Type 0 where
  pub access_token : String
  pub token_type : String
  pub scopes : List String
  pub token_id : String
  pub expires_at : Option ℕ

abbrev pub texts : List (Option String) → List String
texts [] = []
texts (none ∷ ts) = texts ts
texts (some t ∷ ts) = t ∷ texts ts

unfoldable pub accept_token : ControlTokens → Token → ControlTokens × Option ApiToken
accept_token c t = if str_eq t.access_token "" then (c, none) else (
  record { access_token = t.access_token; token_id = t.token_id; revoked_own = false },
  some (record {
    access_token = t.access_token;
    token_type = t.token_type;
    scopes = texts t.scopes;
    token_id = t.token_id;
    expires_at = t.expires_at;
  }),
)

-- A revocation whose request is on its way: the token's id, and whether it was the one in use.
pub record Revoking : Type 0 where
  pub target : String
  pub own : Bool

pub data Begun : Type 0 where
  already_revoked nothing_to_revoke : Begun
  revoking : Revoking → Begun

-- The first section of `RevokeAPIToken`.
unfoldable pub begin_revoke : (String → String) → ControlTokens → String → Begun
begin_revoke trim c token_id =
    let target = if str_eq (trim token_id) "" then c.token_id else trim token_id in
    if str_eq target ""
    then (if c.revoked_own && str_eq c.access_token "" then already_revoked else nothing_to_revoke)
    else revoking
        (record { target = target; own = not (str_eq target "") && str_eq target c.token_id })

-- Whether the answer to the request, `none` for success, lets the revocation go on.
unfoldable pub counts_as_revoked : Revoking → Option ApiErr → Bool
counts_as_revoked r none = true
counts_as_revoked r (some e) = r.own && is_api_status e 401

-- The last section.
unfoldable pub forget_token : ControlTokens → Revoking → ControlTokens
forget_token c r =
    if r.own && str_eq c.token_id r.target
    then record { access_token = ""; token_id = ""; revoked_own = true }
    else c

unfoldable pub finish_revoke :
    ControlTokens → Revoking → Option ApiErr → ControlTokens × Option ApiErr
finish_revoke c r answer =
    if counts_as_revoked r answer then (forget_token c r, none) else (c, answer)

-- The steps of a control plane that many goroutines use: a sign-in ends, a revocation begins, the
-- one that began as the nth of those on their way gets its answer.
pub data Step : Type 0 where
  signed_in : Token → Step
  begins : String → Step
  answered : ℕ → Option ApiErr → Step

-- A request to revoke `target`, begun when the control plane held the token with the id `held`; and
-- what the API answered, `none` for success.
pub record Said : Type 0 where
  pub target : String
  pub held : String
  pub answer : Option ApiErr

-- `on_their_way` are the revocations begun, each with the id of the token held then, the last one
-- first, and `said` the answers since the last sign-in.
pub record World : Type 0 where
  pub tokens : ControlTokens
  pub on_their_way : List (Revoking × String)
  pub said : List Said

abbrev pub nth : List (Revoking × String) → ℕ → Option (Revoking × String)
nth [] n = none
nth (r ∷ rs) zero = some r
nth (r ∷ rs) (suc n) = nth rs n

abbrev pub set_off : List (Revoking × String) → String → Begun → List (Revoking × String)
set_off rs held (revoking r) = (r, held) ∷ rs
set_off rs held _ = rs

answer_to : World → Option (Revoking × String) → Option ApiErr → World
answer_to w none answer = w
answer_to w (some (r, held)) answer = record w {
  tokens = (finish_revoke w.tokens r answer).0;
  said = record { target = r.target; held = held; answer = answer } ∷ w.said;
}

unfoldable pub step : (String → String) → World → Step → World
unfolding answer_to
step trim w (signed_in t) = record w {
  tokens = (accept_token w.tokens t).0;
  said = if str_eq t.access_token "" then w.said else [];
}
step trim w (begins token_id) = record w {
  on_their_way = set_off w.on_their_way w.tokens.token_id (begin_revoke trim w.tokens token_id);
}
step trim w (answered n answer) = answer_to w (nth w.on_their_way n) answer

unfoldable pub run : (String → String) → World → List Step → World
run trim w [] = w
run trim w (x ∷ xs) = run trim (step trim w x) xs

-- The access token that `send` puts on a request: none is asked for, or there is one, or it fails.
pub data Signed : Type 0 where
  unsigned no_token : Signed
  bearer : String → Signed

unfoldable pub sign : ControlTokens → Bool → Signed
sign c false = unsigned
sign c true = if str_eq c.access_token "" then no_token else bearer c.access_token
