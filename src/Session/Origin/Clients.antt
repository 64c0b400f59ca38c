-- ===== src/Session/Origin/Clients.antt =====
-- session.go: the clients that OriginPreference leaves open.
use text.Mathlib.Text.{◌==◌ as str_eq}
use thalovant_go_sdk.Prelude.{
  ℕ, ap, ◌==◌, Bool, true, false, Option, none, some, List, [], ◌∷◌, ◌≡◌, refl, arith, is_some,
  if◌then◌else◌, not, ◌&&◌, ◌||◌, leb,
}
use thalovant_go_sdk.Errors.{Err, other_error}
use thalovant_go_sdk.Session.{Effect, dialled, closed, close_failed, log_dial}
use thalovant_go_sdk.Session.Origin.{
  OriginPreference, OriginAttempt, Dialling, cooling_down, Origin, build_direct, fall_back,
  close_attempt, try_preferred, connect_origin,
}

abbrev remove : List ℕ → ℕ → List ℕ
remove [] c = []
remove (d ∷ ds) c = let rest = remove ds c in if d == c then ds else d ∷ rest

-- The clients of a log that nobody has asked to close.
unfoldable pub unclosed : List Effect → List ℕ
unclosed [] = []
unclosed (dialled c ∷ log) = c ∷ unclosed log
unclosed (closed c ∷ log) = remove (unclosed log) c
unclosed (close_failed c ∷ log) = remove (unclosed log) c
unclosed (_ ∷ log) = unclosed log

unfoldable pub has_close_failed : List Effect → Bool
has_close_failed [] = false
has_close_failed (close_failed c ∷ log) = true
has_close_failed (_ ∷ log) = has_close_failed log

abbrev pub returned : Option ℕ → List ℕ
returned none = []
returned (some c) = c ∷ []

-- Every client but the one that is returned was asked to close; and after a close that failed none
-- is returned, and there is an error.
unfoldable pub Tidy : Origin → Type 0
Tidy r =
    (unclosed r.log ≡ returned r.answer.client)
    × (has_close_failed r.log ≡ true → (r.answer.client ≡ none) × (is_some r.answer.err ≡ true))

built-Tidy :
    (o : OriginPreference) (log : List Effect) (client : Option ℕ) (err : Option Err)
    → unclosed log ≡ []
    → has_close_failed log ≡ false
    → Tidy (record {
      preference = o;
      log = log_dial client log;
      answer = record { client = client; err = err };
    })
unfolding Tidy unclosed has_close_failed log_dial
built-Tidy o log none err h n = (h, λ y. absurd (ground arith))
built-Tidy o log (some c) err h n = (ap (λ l. c ∷ l) h, λ y. absurd (ground arith))

removed_self : (c : ℕ) → unclosed (close_failed c ∷ dialled c ∷ []) ≡ []
unfolding unclosed
removed_self c = ground arith

unclosed-Tidy :
    (o : OriginPreference) (c : ℕ) (e : Err)
    → Tidy (record {
      preference = o;
      log = close_failed c ∷ dialled c ∷ [];
      answer = record { client = none; err = some e };
    })
unfolding Tidy
unclosed-Tidy o c e = (removed_self c, λ y. (refl, refl))

closed_self : (c : ℕ) → unclosed (closed c ∷ dialled c ∷ []) ≡ []
unfolding unclosed
closed_self c = ground arith

if-Tidy : (b : Bool) (x y : Origin) → Tidy x → Tidy y → Tidy (if b then x else y)
if-Tidy true x y h h' = h
if-Tidy false x y h h' = h'

option-Tidy :
    {X : Type 0} (o : Option X) (x : Origin) (f : X → Origin)
    → Tidy x
    → ((a : X) → Tidy (f a))
    → Tidy (elim o [ none ↦ x | some a ↦ f a ])
option-Tidy none x f h h' = h
option-Tidy (some a) x f h h' = h' a

module _ (d : Dialling) (options : OriginAttempt) where
  build_direct-Tidy :
      (o : OriginPreference) (log : List Effect)
      → unclosed log ≡ []
      → has_close_failed log ≡ false
      → Tidy (build_direct d options o log)
  unfolding build_direct
  build_direct-Tidy o log h n = built-Tidy o log _ _ h n

  fall_back-Tidy :
      (o : OriginPreference) (log : List Effect)
      → unclosed log ≡ []
      → has_close_failed log ≡ false
      → Tidy (fall_back d options o log)
  unfolding fall_back log_dial
  fall_back-Tidy o log h n =
      option-Tidy d.ctx_closed _ _
        (option-Tidy d.ctx_cooling _ _ (build_direct-Tidy _ log h n)
          (λ e. built-Tidy _ log none (some e) h n))
        (λ e. built-Tidy o log none (some e) h n)

  close_attempt-Tidy :
      (o : OriginPreference) (e : Err) (c : Option ℕ) → Tidy (close_attempt d options o e c)
  unfolding close_attempt has_close_failed unclosed
  close_attempt-Tidy o e none = fall_back-Tidy o [] refl refl
  close_attempt-Tidy o e (some c) =
      option-Tidy (d.close c) _ _
        (fall_back-Tidy o (closed c ∷ dialled c ∷ []) (closed_self c) refl)
        (λ e'. unclosed-Tidy o c _)

  try_preferred-Tidy : (o : OriginPreference) → Tidy (try_preferred d options o)
  unfolding try_preferred unclosed has_close_failed
  try_preferred-Tidy o =
      option-Tidy _ _ _ (built-Tidy o [] _ none refl refl) (λ e. close_attempt-Tidy o e _)

-- Whatever fails, OriginPreference.Connect has asked every client that it built to close, but the
-- one that it returns; and when a close failed it returns no client, and an error.
pub connect_origin-Tidy :
    (d : Dialling) (options : OriginAttempt) (o : OriginPreference)
    → Tidy (connect_origin d options o)
unfolding connect_origin unclosed has_close_failed log_dial
connect_origin-Tidy d options o =
    option-Tidy d.ctx _ _
      (if-Tidy (leb o.handshake_timeout 0 || leb o.cooldown 0) _ _
        (built-Tidy o [] none (some (other_error ∷ [])) refl refl)
        (if-Tidy
          (not (str_eq o.address "")
            && (not (str_eq options.host "") && not (cooling_down o d.now)))
          _ _ (try_preferred-Tidy d options o) (build_direct-Tidy d options o [] refl refl)))
      (λ e. built-Tidy o [] none (some e) refl refl)
