-- ===== src/Utterances/Tests.antt =====
-- A register at concrete utterances, and the theorems about registers applied to it.
use thalovant_go_sdk.Prelude.{true, false, [], ◌∷◌, ◌≡◌, refl}
use thalovant_go_sdk.Utterances.{ReplyCorrelation, Register, is_active}

abbrev ask_id : ReplyCorrelation
ask_id = record { query = false; id = "r1" }

-- A query with the id of the ask: the two are told apart.
abbrev busy : Register
busy = record { reply_ids = record { query = true; id = "r1" } ∷ []; untracked_sends = 3 ∷ 4 ∷ [] }

ask_free : is_active busy.reply_ids ask_id ≡ false
unfolding is_active
ask_free = refl
