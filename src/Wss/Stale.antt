-- ===== src/Wss/Stale.antt =====
-- transport_wss.go: goroutines of attempts that are over.
use thalovant_go_sdk.Prelude.{
  true, String, List, [], ◌∷◌, none, ◌≡◌, ◌∙◌, sym, ap, refl, Bool-cases, inl, inr, arith,
}
use thalovant_go_sdk.Wss.{WssTransport}
use thalovant_go_sdk.Wss.Reader.{forget_psk}
use thalovant_go_sdk.Wss.Moves.{
  Move, step, run, is_stale, live, enters, retries, leaves, disconnects, opens, confirms, poisons,
  hears, greets, starts, finals, makes, raises, fails, signals, keeps_psk, forgets_psk,
}

-- The transport but for the pre-shared key that it remembers.
unfoldable pub uncached : WssTransport → WssTransport
uncached t = record t { cached_psk = none; cached_psk_node_id = ""; cached_psk_password = "" }

forget_psk-uncached : (node : String) (t : WssTransport) → uncached (forget_psk node t) ≡ uncached t
unfolding uncached forget_psk
forget_psk-uncached node t = ground arith

step_stale :
    (m : Move) (t : WssTransport)
    → is_stale m t.generation ≡ true
    → uncached (step m t) ≡ uncached t
unfolding step is_stale
step_stale (opens g id done now) t h = ap uncached (ground arith)
step_stale (confirms g c done now) t h = ap uncached (ground arith)
step_stale (poisons g c e now) t h = ap uncached (ground arith)
step_stale (hears g) t h = ap uncached (ground arith)
step_stale (greets g node) t h = ap uncached (ground arith)
step_stale (starts g id p) t h = ap uncached (ground arith)
step_stale (finals g) t h = ap uncached (ground arith)
step_stale (makes g id) t h = ap uncached (ground arith)
step_stale (raises g now) t h = ap uncached (ground arith)
step_stale (fails g e code now) t h = ap uncached (ground arith)
step_stale (signals g) t h = ap uncached (ground arith)
step_stale (keeps_psk g psk node password) t h = ap uncached (ground arith)
step_stale (forgets_psk g node) t h = forget_psk-uncached node t
step_stale _ t h = cc

-- No section reads the key but to change it.
step-uncached : (m : Move) (t : WssTransport) → uncached (step m t) ≡ uncached (step m (uncached t))
unfolding step uncached
step-uncached (enters now) t = ground arith
step-uncached (retries e done now) t = ground arith
step-uncached leaves t = refl
step-uncached (opens g id done now) t = ground arith
step-uncached (confirms g c done now) t = ground arith
step-uncached disconnects t = refl
step-uncached (poisons g c e now) t = ground arith
step-uncached (hears g) t = ground arith
step-uncached (greets g node) t = ground arith
step-uncached (starts g id p) t = ground arith
step-uncached (finals g) t = ground arith
step-uncached (makes g id) t = ground arith
step-uncached (raises g now) t = ground arith
step-uncached (fails g e code now) t = ground arith
step-uncached (signals g) t = ground arith
step-uncached (keeps_psk g psk node password) t = ground arith
step-uncached (forgets_psk g node) t = ground arith

step_same :
    (m : Move) (a b : WssTransport)
    → uncached a ≡ uncached b
    → uncached (step m a) ≡ uncached (step m b)
step_same m a b h = step-uncached m a ∙ ap (λ t. uncached (step m t)) h ∙ sym (step-uncached m b)

run_same :
    (ms : List Move) (a b : WssTransport)
    → uncached a ≡ uncached b
    → uncached (run (live ms b) a) ≡ uncached (run ms b)
unfolding run live
run_same [] a b same = same
run_same (m ∷ ms) a b same = elim (Bool-cases (is_stale m b.generation)) [
  | inl stale ↦ rw (live, stale) (run_same ms a (step m b) (same ∙ sym (step_stale m b stale)))
  | inr lives ↦ rw (live, lives) (run_same ms (step m a) (step m b) (step_same m a b same))
]

-- However the sections of several attempts interleave, the transport ends, but for the pre-shared
-- key that it remembers, as it would without the sections that goroutines of an attempt run for it
-- (its dial, its reader, its handshake and its failures) after another generation has begun. The
-- sections of Connect itself (its beginning, its retry with XX, its end) and Disconnect are of no
-- attempt and are all kept.
pub run-live :
    (ms : List Move) (t : WssTransport) → uncached (run (live ms t) t) ≡ uncached (run ms t)
run-live ms t = run_same ms t t refl
