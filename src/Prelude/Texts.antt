-- ===== src/Prelude/Texts.antt =====
-- Texts put together from parts, and numbers in them.
use Prim.Native.Nat.{ℕ, zero, suc, ◌/◌, ◌%◌}
use Prim.Native.String.{String, ◌++◌}
use mathlib.Core.List.{List, [], ◌∷◌}
use hermes_forge_public.Prelude.Tests.{ltb, if◌then◌else◌}

-- A format string with its verbs filled in, or a chain of Go's `+`.
abbrev pub concat : List String → String
concat [] = ""
concat (s ∷ ss) = s ++ concat ss

-- `strings.Join`
abbrev pub join_with : String → List String → String
join_with sep [] = ""
join_with sep (s ∷ []) = s
join_with sep (s ∷ t ∷ ss) = concat (s ∷ sep ∷ join_with sep (t ∷ ss) ∷ [])

abbrev pub nth_or_empty : ℕ → List String → String
nth_or_empty n [] = ""
nth_or_empty zero (x ∷ l) = x
nth_or_empty (suc n) (x ∷ l) = nth_or_empty n l

abbrev pub digit : ℕ → String
digit n = nth_or_empty n (
    "0" ∷ "1" ∷ "2" ∷ "3" ∷ "4" ∷ "5" ∷ "6" ∷ "7" ∷ "8" ∷ "9" ∷ "a" ∷ "b" ∷ "c" ∷ "d" ∷ "e" ∷ "f"
    ∷ [])

-- %d; a number has no more digits than its successor counts.
abbrev pub decimal : ℕ → ℕ → String
decimal zero n = ""
decimal (suc fuel) n =
    let high = decimal fuel (n / 10) in
    if ltb n 10 then digit n else concat (high ∷ digit (n % 10) ∷ [])

-- `hex.EncodeToString`, or the verb %x of bytes
unfoldable pub encode : List ℕ → String
encode [] = ""
encode (b ∷ bytes) = concat (digit (b / 16) ∷ digit (b % 16) ∷ encode bytes ∷ [])
