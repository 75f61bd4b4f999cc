-- ===== src/NotifyStore/Summary.antt =====
-- InterestingStatuses and ProofSummaryFromMap of hermes/internal/notifystore/store.go. The characters
-- of a text are its runes.
use hermes_forge_public.Prelude.{
  ℕ, zero, suc, String, Bool, ◌||◌, Option, none, some, List, [], ◌∷◌, map, ◌==◌, ltb,
  if◌then◌else◌,
}
use hermes_forge_public.Prelude.Texts.{concat, join_with}
use hermes_forge_public.Prelude.TextOrder.{text_le}
use hermes_forge_public.Sql.{order_by}
use hermes_forge_public.Envelope.{Proof, lookup}

unfoldable pub is_interesting : String → Bool
is_interesting status =
    status == "done"
    || status == "blocked"
    || status == "failed"
    || status == "paused"
    || status == "awaiting_confirm"

-- `utf8.RuneCountInString`
abbrev pub rune_count : String → ℕ
rune_count String.[] = 0
rune_count (String.◌∷◌ c s) = suc (rune_count s)

-- The first n runes.
abbrev pub take_runes : ℕ → String → String
take_runes zero s = ""
take_runes (suc n) String.[] = ""
take_runes (suc n) (String.◌∷◌ c s) = String.◌∷◌ c (take_runes n s)

abbrev pub max_runes : ℕ
max_runes = 1000

abbrev pub keys_of : Proof → List String
keys_of proof = map (λ (p : String × String). p.0) proof

-- `proof[k]`, empty for a missing key
abbrev pub value_of : Option String → String
value_of none = ""
value_of (some v) = v

unfoldable pub summary_part : Proof → String → String
summary_part proof k = concat (k ∷ ": " ∷ value_of (lookup k proof) ∷ [])

unfoldable pub shorten : String → String
shorten s = if ltb max_runes (rune_count s) then concat (take_runes max_runes s ∷ "…" ∷ []) else s

unfoldable pub proof_summary_from_map : Proof → String
proof_summary_from_map [] = ""
proof_summary_from_map (p ∷ proof) =
    shorten
      (join_with "; " (map (summary_part (p ∷ proof)) (order_by text_le (keys_of (p ∷ proof)))))
