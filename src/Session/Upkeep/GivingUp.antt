-- ===== src/Session/Upkeep/GivingUp.antt =====
-- session.go: why Run gives a link up.
use mathlib.Core.Path.{subst}
use thalovant_go_sdk.Prelude.{
  ℕ, ◌<◌, ◌≤◌, ◌≡◌, ◌⊎◌, inl, inr, refl, arith, true, some, List, [], ◌∷◌,
}
use thalovant_go_sdk.Errors.{Err, is, err_hub_refused, err_hub_key_changed, err_client_key_rejected}
use thalovant_go_sdk.Link.{
  HubSessionPolicy, LinkOutcome, refused, key_changed, client_key_rejected, give_up, History,
}
use thalovant_go_sdk.Link.History.{decide, refused_for}
use thalovant_go_sdk.Session.{HubSession}
use thalovant_go_sdk.Session.Upkeep.{
  link_outcome, Turn, Act, attempted, told, paused, Upkeep, gave_up, returns, run_session,
}
use thalovant_go_sdk.Session.Upkeep.Rules.{
  history_of, last_decision, Ruled, Justified, Kept, Sound, run_session-Sound,
}

decide_gives_up :
    (p : HubSessionPolicy) (grace : ℕ) (h : History) (o o' : LinkOutcome) (now : ℕ)
    → decide p grace h o now ≡ give_up o'
    → (o' ≡ key_changed)
      ⊎ (o' ≡ client_key_rejected)
      ⊎ ((o' ≡ refused) × (o ≡ refused) × (grace ≤ refused_for h now))
unfolding decide
decide_gives_up p grace h o o' now e = ground arith

link_outcome-key_changed :
    (e : Err) → link_outcome (some e) ≡ key_changed → is e err_hub_key_changed ≡ true
unfolding link_outcome
link_outcome-key_changed e h = ground arith

link_outcome-client_key_rejected :
    (e : Err) → link_outcome (some e) ≡ client_key_rejected → is e err_client_key_rejected ≡ true
unfolding link_outcome
link_outcome-client_key_rejected e h = ground arith

link_outcome-refused : (e : Err) → link_outcome (some e) ≡ refused → is e err_hub_refused ≡ true
unfolding link_outcome
link_outcome-refused e h = ground arith

gave_up_log :
    (p : HubSessionPolicy) (grace : ℕ) (e : Err) (log : List Act)
    → Ruled p grace log
    → last_decision log ≡ some (give_up (link_outcome (some e)))
    → (is e err_hub_key_changed ≡ true)
      ⊎ (is e err_client_key_rejected ≡ true)
      ⊎ ((now : ℕ) × (h : History) × (is e err_hub_refused ≡ true)
          × (history_of log ≡ (refused, now) ∷ h)
          × (grace ≤ refused_for h now))
unfolding Ruled last_decision history_of
gave_up_log p grace e [] r l = cc
gave_up_log p grace e (paused w ∷ log) r l = cc
gave_up_log p grace e (attempted err ∷ log) r l = cc
gave_up_log p grace e (told o now d ∷ log) (rule, _, _, _) l =
    let given : decide p grace (history_of log) o now ≡ give_up (link_outcome (some e)) = cc in
    elim (decide_gives_up p grace (history_of log) o (link_outcome (some e)) now given) [
      | inl c ↦ inl (link_outcome-key_changed e c)
      | inr (inl c) ↦ inr (inl (link_outcome-client_key_rejected e c))
      | inr (inr (c, same, g)) ↦
          inr (inr (now, history_of log, link_outcome-refused e c, rw same refl, g))
    ]

-- With a positive grace, Run ends with an attempt's error only when the hub's key changed, or the
-- hub rejected this client's key, or the hub refused at the last attempt and had refused for the
-- grace.
pub run_session_gives_up :
    (ts : List Turn) (grace : ℕ) (s : HubSession) (k : Upkeep) (e : Err)
    → 0 < grace
    → run_session ts grace s ≡ returns k (gave_up e)
    → (is e err_hub_key_changed ≡ true)
      ⊎ (is e err_client_key_rejected ≡ true)
      ⊎ ((now : ℕ) × (h : History) × (is e err_hub_refused ≡ true)
          × (history_of k.log ≡ (refused, now) ∷ h)
          × (grace ≤ refused_for h now))
unfolding Kept Sound Justified
run_session_gives_up ts grace s k e positive r =
    let (kept, why) = subst (Sound s.policy grace) r (run_session-Sound ts grace s positive) in
    gave_up_log s.policy grace e k.log kept.1 why
