-- ===== src/Api/StatusList.antt =====
-- The query parameter `status` of `list` in hermes/internal/httpapi/envelope_handler.go.
use Prim.Native.Char.{Char, code}
use hermes_forge_public.Prelude.{
  ℕ, String, Bool, ◌&&◌, ◌||◌, Option, none, some, List, [], ◌∷◌, ◌==◌, eqb, leb, if◌then◌else◌,
}
use hermes_forge_public.Envelope.{Status, known}

-- `unicode.IsSpace`
unfoldable pub is_space : ℕ → Bool
is_space c =
    leb 9 c && leb c 13
    || eqb c 32
    || eqb c 133
    || eqb c 160
    || eqb c 5760
    || leb 8192 c && leb c 8202
    || eqb c 8232
    || eqb c 8233
    || eqb c 8239
    || eqb c 8287
    || eqb c 12288

unfoldable pub trim_left : String → String
trim_left String.[] = ""
trim_left (String.◌∷◌ c s) = if is_space (code c) then trim_left s else String.◌∷◌ c s

unfoldable pub trim_right : String → String
trim_right String.[] = ""
trim_right (String.◌∷◌ c s) =
    let rest = trim_right s in if rest == "" && is_space (code c) then "" else String.◌∷◌ c rest

-- `strings.TrimSpace`
abbrev pub trim_space : String → String
trim_space s = trim_right (trim_left s)

-- A character in front of the first part.
abbrev pub extend : Char → List String → List String
extend c [] = String.◌∷◌ c "" ∷ []
extend c (s ∷ parts) = String.◌∷◌ c s ∷ parts

-- `strings.Split(s, ",")`
unfoldable pub split_commas : String → List String
split_commas String.[] = "" ∷ []
split_commas (String.◌∷◌ c s) =
    let parts = split_commas s in if eqb (code c) b',' then "" ∷ parts else extend c parts

-- The loop over the parts; `none` is the response for an unknown status.
unfoldable pub collect_statuses : List String → Option (List Status)
collect_statuses [] = some []
collect_statuses (part ∷ parts) =
    let st = trim_space part in
    let rest = collect_statuses parts in
    if st == ""
    then rest
    else if known st
    then elim rest [ none ↦ none | some l ↦ some (st ∷ l) ]
    else none

unfoldable pub parse_statuses : String → Option (List Status)
parse_statuses q = if q == "" then some [] else collect_statuses (split_commas q)
