-- ===== src/RuntimeConfig/Lossless.antt =====
-- control.go: what `UpdateRuntimeGroupConfig` leaves of what others write.
use mathlib.Core.Path.{subst}
use thalovant_go_sdk.Prelude.{
  ℕ, zero, suc, ◌+◌, ◌*◌, ◌<◌, Bool, true, false, ◌&&◌, Option, none, some, ◌≡◌, sym, ap, refl, ◌⊎◌,
  inl, inr, ltb, ◌==◌, if◌then◌else◌, arith,
}
use thalovant_go_sdk.Errors.{Err}
use thalovant_go_sdk.RuntimeConfig.{ConfigMembers, merge_runtime_config}
use thalovant_go_sdk.RuntimeConfig.Updates.{
  PutError, PutFault, precondition_failed, is_overtaken, read_failed, Plane, World, Update, written,
  failed, endless, after_put, applied, put, update_rounds, update_runtime_group_config,
}

-- A revision names one configuration: who leaves the revision leaves the configuration.
abbrev pub Honest : {L : Type 0} → World L → Type 0
Honest {L} w =
    (n : ℕ) (s : Plane L) → (w.others n s).revision ≡ s.revision → (w.others n s).config ≡ s.config

-- Why an update failed: a GET brought no configuration; a PUT met an error; or the third PUT too
-- found another revision than the one that was read.
pub data Cause {L : Type 0} (w : World L) (e : Err) : Type 0 where
  get_error : (n : ℕ) → read_failed (w.gets n) ≡ some e → Cause w e
  put_error :
      (n : ℕ) (fault : PutFault) → w.put_fails n ≡ some fault → fault.error.err ≡ e → Cause w e
  overtaken :
      (s : Plane L)
      → ¬ ((w.others 5 s).revision ≡ s.revision)
      → e ≡ precondition_failed.err
      → Cause w e

module _ {L : Type 0} (w : World L) (delta : ConfigMembers L) where
  -- The rounds ended, and what they wrote is the delta over what the PUT met.
  Ends : Update L → Type 0
  Ends (written met after) = after.config ≡ merge_runtime_config met.config delta
  Ends (failed e s) = Cause w e
  Ends (endless s) = ⊥

  -- A PUT that was answered merged the delta; an error is the request's or tells of another revision.
  Sent : ℕ → Plane L → Plane L → Plane L × Option PutError → Type 0
  Sent n read met (after, none) = after.config ≡ merge_runtime_config met.config delta
  Sent n read met (after, some e) =
      ((fault : PutFault) × (w.put_fails n ≡ some fault) × (fault.error ≡ e))
      ⊎ ((¬ (met.revision ≡ read.revision)) × (e ≡ precondition_failed))

  unfaulted-Sent :
      (n : ℕ) (read met : Plane L) (b : Bool)
      → (met.revision ≡ read.revision → met.config ≡ read.config)
      → (met.revision == read.revision) ≡ b
      → Sent n read met
          (if b then (applied w delta n read.config, none) else (met, some precondition_failed))
  unfolding Sent applied
  unfaulted-Sent n read met true same h =
      ap (λ c. merge_runtime_config c delta) (sym (same (ground arith)))
  unfaulted-Sent n read met false same h = inr ((λ eq. ground arith), refl)

  put_by-Sent :
      (n : ℕ) (read met : Plane L) (o : Option PutFault)
      → (met.revision ≡ read.revision → met.config ≡ read.config)
      → w.put_fails n ≡ o
      → Sent n read met (elim o [
        | some fault ↦ (
          if fault.reached && (met.revision == read.revision)
              then applied w delta n read.config
              else met,
          some fault.error,
        )
        | none ↦
            if met.revision == read.revision
            then (applied w delta n read.config, none)
            else (met, some precondition_failed)
      ])
  unfolding Sent
  put_by-Sent n read met none same h = unfaulted-Sent n read met _ same refl
  put_by-Sent n read met (some fault) same h = inl (fault, h, refl)

  put-Sent :
      (n : ℕ) (read met : Plane L)
      → (met.revision ≡ read.revision → met.config ≡ read.config)
      → Sent n read met (put w delta n read met)
  unfolding put
  put-Sent n read met same = put_by-Sent n read met (w.put_fails n) same refl

  -- An error that no further round follows.
  last-Cause :
      (n : ℕ) (read after : Plane L) (e : PutError)
      → Sent n read (w.others (2 * n + 1) read) (after, some e)
      → n < 3
      → (is_overtaken e && ltb n 2) ≡ false
      → Cause w e.err
  unfolding Sent
  last-Cause n read after e (inl (fault, met, same)) bound stop =
      put_error n fault met (ap (λ x. x.err) same)
  last-Cause n read after e (inr (moved, same)) bound stop =
      let conflict : is_overtaken e ≡ true = ap is_overtaken same in
      let third : n ≡ 2 = ground arith in
      overtaken read
        (subst (λ k. ¬ ((w.others (2 * k + 1) read).revision ≡ read.revision)) third moved)
        (ap (λ x. x.err) same)

  if-Ends :
      (b : Bool) (x y : Update L)
      → (b ≡ true → Ends x)
      → (b ≡ false → Ends y)
      → Ends (if b then x else y)
  if-Ends true x y h k = h refl
  if-Ends false x y h k = k refl

  done-Ends :
      (n : ℕ) (read after : Plane L)
      → Sent n read (w.others (2 * n + 1) read) (after, none)
      → Ends (written (w.others (2 * n + 1) read) after)
  unfolding Sent Ends
  done-Ends n read after h = h

  failed-Ends : (e : Err) (s : Plane L) → Cause w e → Ends (failed e s)
  unfolding Ends
  failed-Ends e s h = h

  after_put-Ends :
      (n : ℕ) (read : Plane L) (sent : Plane L × Option PutError) (again : Update L)
      → Sent n read (w.others (2 * n + 1) read) sent
      → n < 3
      → (n < 2 → Ends again)
      → Ends (after_put n (w.others (2 * n + 1) read) sent again)
  unfolding after_put
  after_put-Ends n read (after, none) again h bound next = done-Ends n read after h
  after_put-Ends n read (after, some e) again h bound next =
      if-Ends (is_overtaken e && ltb n 2) again _ (λ goes. next (ground arith))
        (λ stop. failed-Ends e.err after (last-Cause n read after e h bound stop))

  read-Ends :
      (n : ℕ) (o : Option Err) (read : Plane L) (u : Update L)
      → read_failed (w.gets n) ≡ o
      → Ends u
      → Ends (elim o [ some e ↦ failed e read | none ↦ u ])
  read-Ends n none read u h k = k
  read-Ends n (some e) read u h k = failed-Ends e read (get_error n h)

  Written : Update L → Type 0
  Written u =
      (met : Plane L) × (after : Plane L) × (u ≡ written met after)
      × (after.config ≡ merge_runtime_config met.config delta)

  abbrev pub Reported : Update L → Type 0
  Reported u = (e : Err) × (s : Plane L) × (u ≡ failed e s) × Cause w e

  Ends-cases : (u : Update L) → Ends u → Written u ⊎ Reported u
  unfolding Ends Written
  Ends-cases (written met after) h = inl (met, after, refl, h)
  Ends-cases (failed e s) h = inr (e, s, refl, h)
  Ends-cases (endless s) h = absurd h

  rounds-Ends :
      (fuel attempt : ℕ) (s : Plane L)
      → Honest w
      → fuel + attempt ≡ 3
      → attempt < 3
      → Ends (update_rounds w delta fuel attempt s)
  unfolding update_rounds
  rounds-Ends zero attempt s h enough bound = absurd (omega arith)
  rounds-Ends (suc fuel) attempt s h enough bound =
      let read : Plane L = w.others (2 * attempt) s in
      let met : Plane L = w.others (2 * attempt + 1) read in
      read-Ends attempt (read_failed (w.gets attempt)) read _ refl (
        after_put-Ends attempt read (put w delta attempt read met) _
          (put-Sent attempt read met (h (2 * attempt + 1) read)) bound
          (λ more. rounds-Ends fuel (attempt + 1) _ h (omega arith) (omega arith)))

  -- When a revision names one configuration, an update ends within three rounds. Either it wrote,
  -- and what it left is the delta merged over the configuration that the write met, so that nothing
  -- that others wrote before is lost; or it failed, because a GET brought no configuration, a PUT
  -- met an error, or the third PUT too met another revision than the one read.
  pub update_runtime_group_config_lossless :
      (s : Plane L)
      → Honest w
      → ((met : Plane L) × (after : Plane L) × (update_runtime_group_config w delta s
            ≡ written met after)
          × (after.config ≡ merge_runtime_config met.config delta))
        ⊎ Reported (update_runtime_group_config w delta s)
  unfolding update_runtime_group_config Written
  update_runtime_group_config_lossless s h =
      Ends-cases (update_rounds w delta 3 0 s) (rounds-Ends 3 0 s h (omega arith) (omega arith))
