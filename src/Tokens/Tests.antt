-- ===== src/Tokens/Tests.antt =====
-- A sign-in that ends while a revocation is on its way, and the theorem about tokens applied to it.
use thalovant_go_sdk.Prelude.{false, none, some, List, [], ◌∷◌, ◌≡◌, refl, inl}
use thalovant_go_sdk.Deletion.{api_status, is_api_status}
use thalovant_go_sdk.DeviceLogin.{Token}
use thalovant_go_sdk.Tokens.{
  accept_token, begin_revoke, finish_revoke, counts_as_revoked, forget_token, Step, signed_in,
  begins, answered, World, step, run,
}
use thalovant_go_sdk.Tokens.Keeping.{last_token, Holds, run-Holds}

abbrev old_token : Token
old_token = record {
  access_token = "old";
  token_id = "1";
  token_type = "";
  scopes = [];
  expires_at = none;
}

abbrev new_token : Token
new_token = record {
  access_token = "new";
  token_id = "2";
  token_type = "";
  scopes = [];
  expires_at = none;
}

abbrev start : World
start = record {
  tokens = record { access_token = "old"; token_id = "1"; revoked_own = false };
  on_their_way = [];
  said = [];
}

abbrev overtaken : List Step
overtaken = begins "" ∷ signed_in new_token ∷ answered 0 none ∷ []

new_kept :
    (run (λ t. t) start overtaken).tokens
    ≡ record { access_token = "new"; token_id = "2"; revoked_own = false }
unfolding run step begin_revoke accept_token finish_revoke counts_as_revoked forget_token
new_kept = refl

start-Holds : Holds old_token start
unfolding Holds
start-Holds = inl refl

run-Holds_example : Holds (last_token old_token overtaken) (run (λ t. t) start overtaken)
run-Holds_example = run-Holds (λ t. t) old_token start overtaken tt start-Holds

-- A revocation of the token in use that is answered with 500 keeps it, and one with 401 forgets it.
kept_on_500 :
    (run (λ t. t) start (begins "" ∷ answered 0 (some (api_status 500)) ∷ [])).tokens.access_token
    ≡ "old"
unfolding run step begin_revoke finish_revoke counts_as_revoked forget_token is_api_status
kept_on_500 = refl

forgotten_on_401 :
    (run (λ t. t) start (begins "" ∷ answered 0 (some (api_status 401)) ∷ [])).tokens.access_token
    ≡ ""
unfolding run step begin_revoke finish_revoke counts_as_revoked forget_token is_api_status
forgotten_on_401 = refl
