-- ===== src/Session/Moves.antt =====
-- The changes that a HubSession goes through, as a step relation, and that every operation is a
-- sequence of them. What holds of a session is proved on the moves.
use thalovant_go_sdk.Prelude.{
  ℕ, ◌≡◌, refl, ◌∙◌, arith, Bool, true, false, ◌||◌, Option, none, some, ◌∷◌, Bool-cases,
  Option-cases, inl, inr, ◌==◌,
}
use mathlib.Core.Path.{subst}
use thalovant_go_sdk.Errors.{Err}
use thalovant_go_sdk.Session.{
  HubSession, Env, dialled, closed, close_failed, cleanup, state_change, retire, drop, Attempt,
  admitted, turned_away, attempt, log_dial, retire_fresh, back_off, hold_client, dial, held_or_dial,
  ensure, mark_up,
}

pub data Move (s t : HubSession) : Type 0 where
  close_fails :
      (c : ℕ) → s.retired ≡ some c → t ≡ record s { log = close_failed c ∷ s.log } → Move s t
  closes :
      (c : ℕ)
      → s.retired ≡ some c
      → t ≡ record s { retired = none; log = closed c ∷ s.log }
      → Move s t
  retires : t ≡ retire s → Move s t
  turned :
      (v : Env) (b : Bool)
      → s.client ≡ none
      → s.retired ≡ none
      → s.is_closed ≡ false
      → t ≡ record (back_off v (record s { is_closed = b; log = log_dial v.fresh s.log })) {
        retired = v.fresh;
      }
      → Move s t
  admits :
      (f : ℕ)
      → s.client ≡ none
      → s.retired ≡ none
      → s.is_closed ≡ false
      → t ≡ hold_client (record s { log = dialled f ∷ s.log }) f
      → Move s t
  marks : (c : ℕ) → s.client ≡ some c → t ≡ state_change true s → Move s t
  warms : (b : Bool) → t ≡ record s { warming = b } → Move s t
  shuts : t ≡ record s { is_closed = true } → Move s t

pub data Moves (s : HubSession) : HubSession → Type 0 where
  here : Moves s s
  next : {t u : HubSession} → Moves s t → Move t u → Moves s u

pub trans : {s t u : HubSession} → Moves s t → Moves t u → Moves s u
trans p here = p
trans p (next q m) = next (trans p q) m

pub one : {s t : HubSession} → Move s t → Moves s t
one m = next here m

pub to : {s t u : HubSession} → Moves s t → t ≡ u → Moves s u
to {s} p e = subst (λ x. Moves s x) e p

pub stay : {s t : HubSession} → s ≡ t → Moves s t
stay e = to here e

pub cleanup-Moves : (v : Env) (s : HubSession) → Moves s (cleanup v s).0
unfolding cleanup
cleanup-Moves v s = elim (Option-cases s.retired) [
  | inl e ↦ stay (ground arith)
  | inr (c, e) ↦ elim (Option-cases (v.close c)) [
    | inl ok ↦ one (closes c e (ground arith))
    | inr (x, bad) ↦ one (close_fails c e (ground arith))
  ]
]

cleanup-retired :
    (v : Env) (s : HubSession) → (cleanup v s).1 ≡ none → (cleanup v s).0.retired ≡ none
unfolding cleanup
cleanup-retired v s h = ground arith

cleanup-closed : (v : Env) (s : HubSession) → (cleanup v s).0.is_closed ≡ s.is_closed
unfolding cleanup
cleanup-closed v s = ground arith

pub drop-Moves : (v : Env) (s : HubSession) → Moves s (drop v s).0
unfolding drop
drop-Moves v s = trans (one (retires refl)) (cleanup-Moves v (retire s))

pub mark_up-Moves : (c : ℕ) (s : HubSession) → Moves s (mark_up c s)
unfolding mark_up
mark_up-Moves c s = elim (Option-cases s.client) [
  | inl e ↦ stay (ground arith)
  | inr (d, e) ↦ elim (Bool-cases (c == d)) [
    | inl same ↦ one (marks d e (ground arith))
    | inr other ↦ stay (ground arith)
  ]
]

-- A fresh client that came with an error is in the retired place until it is closed.
retire_fresh-Moves :
    (v : Env) (s : HubSession) (e : Err)
    → s.retired ≡ none
    → Moves (record s { retired = v.fresh }) (retire_fresh v s e v.fresh).0
unfolding retire_fresh
retire_fresh-Moves v s e h = elim (Option-cases v.fresh) [
  | inl n ↦ stay (ground arith)
  | inr (f, y) ↦ to (cleanup-Moves v (record s { retired = v.fresh })) (ground arith)
]

admitted_fresh :
    (c : Option Err) (f : Option ℕ) (x : Option Err) (b : Bool) (g : ℕ)
    → attempt c f x b ≡ admitted g
    → (f ≡ some g) × (b ≡ false)
unfolding attempt
admitted_fresh (some e) f x b g h = cc
admitted_fresh none none x b g h = cc
admitted_fresh none (some f) (some e) b g h = cc
admitted_fresh none (some f) none true g h = cc
admitted_fresh none (some f) none false g h = ground arith

dial-Moves :
    (v : Env) (s : HubSession)
    → s.client ≡ none
    → s.retired ≡ none
    → s.is_closed ≡ false
    → Moves s (dial v s).0
unfolding dial
dial-Moves v s hc hr ho = go (attempt v.connect_err v.fresh v.ctx_err closed_now) refl
  where
    closed_now : Bool
    closed_now = s.is_closed || v.closed_meanwhile

    t : HubSession
    t = record s { is_closed = closed_now; log = log_dial v.fresh s.log }

    go :
        (a : Attempt)
        → attempt v.connect_err v.fresh v.ctx_err closed_now ≡ a
        → Moves s (dial v s).0
    go (turned_away x) e =
        to
          (trans (one (turned v closed_now hc hr ho refl))
            (retire_fresh-Moves v (back_off v t) x hr))
          (rw (e, dial) refl)
    go (admitted f) e = one (
        admits f hc hr ho
          (ground (arith, admitted_fresh v.connect_err v.fresh v.ctx_err closed_now f e)))

held_or_dial-Moves :
    (v : Env) (r : HubSession × Option Err)
    → (r.1 ≡ none → r.0.retired ≡ none)
    → r.0.is_closed ≡ false
    → Moves r.0 (held_or_dial v r).0
unfolding held_or_dial
held_or_dial-Moves v (s, some e) hr ho = here
held_or_dial-Moves v (s, none) hr ho = elim (Option-cases s.client) [
  | inl e ↦ to (dial-Moves v s e (hr refl) ho) (ground arith)
  | inr (c, e) ↦ stay (ground arith)
]

pub ensure-Moves : (v : Env) (s : HubSession) → Moves s (ensure v s).0
unfolding ensure
ensure-Moves v s = elim (Bool-cases s.is_closed) [
  | inl shut ↦ stay (ground arith)
  | inr open' ↦
      to
        (trans (cleanup-Moves v s)
          (held_or_dial-Moves v (cleanup v s) (cleanup-retired v s) (cleanup-closed v s ∙ open')))
        (ground arith)
]
