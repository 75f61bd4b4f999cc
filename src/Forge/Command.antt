-- ===== src/Forge/Command.antt =====
-- forge/internal/agentreport/reporter.go: what a command line says of an executor. A text is the list
-- of its bytes. A command line is fields joined by one space, so at its ends stands no other white space
-- than ASCII has.
use hermes_forge_public.Prelude.{
  ℕ, suc, not, ◌||◌, Option, none, some, List, [], ◌∷◌, ◌++◌, eqb, ltb, length, take, if◌then◌else◌,
}
use hermes_forge_public.Prelude.Texts.{decimal}
use hermes_forge_public.Prelude.Bytes.{
  codes, same, has_prefix, contains, after, trim_space, base_name,
}

-- Up to the first space or tab.
unfoldable pub first_token : List ℕ → List ℕ
first_token [] = []
first_token (c ∷ s) = if eqb c b' ' || eqb c 9 then [] else c ∷ first_token s

unfoldable pub classify_executor : List ℕ → List ℕ
classify_executor cmd =
    if contains (codes "/opencode") cmd
      || contains (codes "opencode-darwin-arm64") cmd
      || has_prefix (codes "opencode") cmd
    then codes "opencode"
    else if same (base_name (first_token cmd)) (codes "claude")
    then codes "claude"
    else if same (base_name (first_token cmd)) (codes "forge")
    then codes "forge"
    else []

-- The value after a flag and a space; the flag itself and the space are cut off.
abbrev pub spaced_value : Option (List ℕ) → List ℕ
spaced_value none = []
spaced_value (some rest) = first_token (trim_space (b' ' ∷ rest))

unfoldable pub extract_flag_value : List ℕ → List ℕ → List ℕ
extract_flag_value cmd flag = elim (after (flag ++ b'=' ∷ []) cmd) [
  | some rest ↦ first_token rest
  | none ↦ spaced_value (after (flag ++ b' ' ∷ []) cmd)
]

-- The value of the first of two flags that has one.
abbrev pub either_flag : List ℕ → List ℕ → List ℕ → List ℕ
either_flag cmd first second =
    if same (extract_flag_value cmd first) []
    then extract_flag_value cmd second
    else extract_flag_value cmd first

unfoldable pub parse_session_id : List ℕ → List ℕ → List ℕ
parse_session_id exec cmd =
    if same exec (codes "claude")
    then either_flag cmd (codes "--session-id") (codes "--resume")
    else if same exec (codes "opencode")
    then either_flag cmd (codes "--session") (codes "-s")
    else []

unfoldable pub build_agent_id : List ℕ → List ℕ → List ℕ → ℕ → List ℕ
build_agent_id host exec session pid =
    if same session []
    then host ++ b':' ∷ exec ++ b':' ∷ codes (decimal (suc pid) pid)
    else host ++ b':' ∷ exec ++ b':' ∷ session

-- The bytes of an ellipsis.
abbrev pub ellipsis : List ℕ
ellipsis = 226 ∷ 128 ∷ 166 ∷ []

unfoldable pub derive_title : List ℕ → List ℕ → List ℕ
derive_title cmd session =
    let trimmed = trim_space cmd in
    if not (same (extract_flag_value cmd (codes "--title")) [])
    then extract_flag_value cmd (codes "--title")
    else if not (same session [])
    then take 20 session
    else if ltb 80 (length trimmed)
    then take 80 trimmed ++ ellipsis
    else trimmed
