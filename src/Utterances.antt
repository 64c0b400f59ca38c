-- ===== src/Utterances.antt =====
-- client.go: the register of the utterances that a client has out, asks and queries by their ids and
-- fire-and-forget sends by the time of each.
--
-- A time is a number of nanoseconds. The sends are in order, the oldest first.
pub mod Counts
mod Tests
use text.Mathlib.Text.{◌==◌ as str_eq}
use thalovant_go_sdk.Prelude.{
  ℕ, suc, ◌+◌, ◌*◌, ◌-◌, Bool, true, false, not, ◌&&◌, ◌||◌, String, List, [], ◌∷◌, ◌++◌, ltb,
  length, drop, if◌then◌else◌,
}
use thalovant_go_sdk.Link.{second}
use thalovant_go_sdk.Ask.{InFlight}

pub record ReplyCorrelation : Type 0 where
  pub query : Bool
  pub id : String

pub record Register : Type 0 where
  pub reply_ids : List ReplyCorrelation
  pub untracked_sends : List ℕ

abbrev pub untracked_utterance_grace : ℕ
untracked_utterance_grace = 10 * second

abbrev pub same_kind : Bool → Bool → Bool
same_kind true b = b
same_kind false b = not b

abbrev pub same_key : ReplyCorrelation → ReplyCorrelation → Bool
same_key k l = same_kind k.query l.query && str_eq k.id l.id

unfoldable pub is_active : List ReplyCorrelation → ReplyCorrelation → Bool
is_active [] k = false
is_active (l ∷ ls) k = same_key l k || is_active ls k

unfoldable pub delete_key : List ReplyCorrelation → ReplyCorrelation → List ReplyCorrelation
delete_key [] k = []
delete_key (l ∷ ls) k = let rest = delete_key ls k in if same_key l k then rest else l ∷ rest

-- The register, and whether the id was free; what `reserveReplyID` returns to give it back is
-- `release_reply_id`.
unfoldable pub reserve_reply_id : ReplyCorrelation → Register → Register × Bool
reserve_reply_id k r =
    if is_active r.reply_ids k then (r, false) else (record r { reply_ids = k ∷ r.reply_ids }, true)

unfoldable pub release_reply_id : ReplyCorrelation → Register → Register
release_reply_id k r = record r { reply_ids = delete_key r.reply_ids k }

-- `sent.After(cutoff)` for the sends.
unfoldable pub recent : ℕ → List ℕ → List ℕ
recent now [] = []
recent now (sent ∷ ss) =
    let rest = recent now ss in
    if ltb now (sent + untracked_utterance_grace) then sent ∷ rest else rest

-- The last 1024.
unfoldable pub newest : List ℕ → List ℕ
newest kept = if ltb 1024 (length kept) then drop (length kept - 1024) kept else kept

unfoldable pub prune_untracked_sends : ℕ → Register → Register
prune_untracked_sends now r = record r { untracked_sends = newest (recent now r.untracked_sends) }

unfoldable pub record_untracked_send : ℕ → Register → Register
record_untracked_send now r =
    prune_untracked_sends now (record r { untracked_sends = r.untracked_sends ++ (now ∷ []) })

unfoldable pub count : Bool → List ReplyCorrelation → ℕ
count query [] = 0
count query (k ∷ ks) =
    let rest = count query ks in if same_kind k.query query then suc rest else rest

unfoldable pub utterances_in_flight : ℕ → Register → Register × InFlight
utterances_in_flight now r =
    let pruned = prune_untracked_sends now r in
    (
      pruned,
      record {
        asks = count false r.reply_ids;
        queries = count true r.reply_ids;
        sends = length pruned.untracked_sends;
      },
    )
