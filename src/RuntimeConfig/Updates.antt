-- ===== src/RuntimeConfig/Updates.antt =====
-- control.go: the rounds of `UpdateRuntimeGroupConfig` against a control plane that others write to.
--
-- The control plane keeps a configuration and its revision; the texts of revisions are numbered, and
-- the personas that ride along are left out. As the API documents it, a PUT with an expected revision
-- is applied when that is the current one and answered 412 otherwise; `others` is what happens there
-- before each request, two of them to a round.
use thalovant_go_sdk.Prelude.{
  ℕ, zero, suc, ◌+◌, ◌*◌, Bool, false, not, ◌&&◌, ◌||◌, Option, none, some, [], ◌∷◌, ltb, ◌==◌,
  if◌then◌else◌,
}
use thalovant_go_sdk.Errors.{Err, err_api}
use thalovant_go_sdk.RuntimeConfig.{ConfigMembers, merge_runtime_config}

-- What a GET brings: the error of `send`, or a status and what the body holds: whether it is JSON,
-- whether its revision is a text of the right form, and whether its config is an object.
pub record ConfigAnswer : Type 0 where
  pub lost : Option Err
  pub status : ℕ
  pub is_json : Bool
  pub has_revision : Bool
  pub has_config : Bool

-- `api_status` is the status of the `APIError` in the error's tree.
pub record PutError : Type 0 where
  pub api_status : Option ℕ
  pub err : Err

-- `reached` tells that the request got to the control plane before it met its error.
pub record PutFault : Type 0 where
  pub reached : Bool
  pub error : PutError

abbrev pub precondition_failed : PutError
precondition_failed = record { api_status = some 412; err = err_api ∷ [] }

abbrev pub is_overtaken : PutError → Bool
is_overtaken e = elim e.api_status [ none ↦ false | some status ↦ status == 412 ]

-- The returns between the GET and the PUT.
unfoldable pub read_failed : ConfigAnswer → Option Err
read_failed a = elim a.lost [
  | some e ↦ some e
  | none ↦
      if ltb a.status 200 || ltb 299 a.status
      then some (err_api ∷ [])
      else if not a.is_json
      then some (err_api ∷ [])
      else if not a.has_revision || not a.has_config
      then some (err_api ∷ [])
      else none
]

module _ (L : Type 0) where
  pub record Plane : Type 0 where
    pub config : ConfigMembers L
    pub revision : ℕ

  -- What the control plane does: what others write before a request, by the request's number; by the
  -- round's, what the GET brings besides the configuration, the error that the PUT meets, and the
  -- revision that it makes.
  pub record World : Type 0 where
    pub others : ℕ → Plane → Plane
    pub gets : ℕ → ConfigAnswer
    pub put_fails : ℕ → Option PutFault
    pub revisions : ℕ → ℕ

  -- `written` has the state that the PUT met and the one that it left; `endless` is a loop that goes on.
  pub data Update : Type 0 where
    written : Plane → Plane → Update
    failed : Err → Plane → Update
    endless : Plane → Update

-- The return at the end of a round, or the next round.
unfoldable pub after_put :
    {L : Type 0} → ℕ → Plane L → Plane L × Option PutError → Update L → Update L
after_put attempt met (after, none) again = written met after
after_put attempt met (after, some e) again =
    if is_overtaken e && ltb attempt 2 then again else failed e.err after

module _ {L : Type 0} (w : World L) (delta : ConfigMembers L) where
  unfoldable pub applied : ℕ → ConfigMembers L → Plane L
  applied attempt base = record {
    config = merge_runtime_config base delta;
    revision = w.revisions attempt;
  }

  -- The PUT of what was read, where the control plane has come to `met`.
  unfoldable pub put : ℕ → Plane L → Plane L → Plane L × Option PutError
  put attempt read met =
      let current = met.revision == read.revision in
      elim (w.put_fails attempt) [
        | some fault ↦ (
          if fault.reached && current then applied attempt read.config else met,
          some fault.error,
        )
        | none ↦
            if current then (applied attempt read.config, none) else (met, some precondition_failed)
      ]

  -- `attempt` counts up; the fuel is the rounds.
  unfoldable pub update_rounds : ℕ → ℕ → Plane L → Update L
  update_rounds zero attempt s = endless s
  update_rounds (suc fuel) attempt s =
      let read : Plane L = w.others (2 * attempt) s in
      let met : Plane L = w.others (2 * attempt + 1) read in
      let sent : Plane L × Option PutError = put attempt read met in
      let again = update_rounds fuel (attempt + 1) (sent.0) in
      elim (read_failed (w.gets attempt)) [
        | some e ↦ failed e read
        | none ↦ after_put attempt met sent again
      ]

  unfoldable pub update_runtime_group_config : Plane L → Update L
  update_runtime_group_config s = update_rounds 3 0 s
