-- ===== src/Prelude/Bytes.antt =====
-- Byte strings, and what Go's strings and path/filepath packages do with them.
use Prim.Native.Char.{code}
use Prim.Native.String.{String}
use mathlib.Core.Bool.{Bool, true, false, ◌&&◌, ◌||◌}
use mathlib.Core.List.{List, [], ◌∷◌, ◌++◌}
use mathlib.Core.Option.{Option, none, some}
use Prim.Native.Nat.{ℕ, zero, suc}
use hermes_forge_public.Prelude.Tests.{eqb, leb, if◌then◌else◌}

abbrev pub codes : String → List ℕ
codes String.[] = []
codes (String.◌∷◌ c s) = code c ∷ codes s

-- Equality of byte strings.
unfoldable pub same : List ℕ → List ℕ → Bool
same [] [] = true
same [] (d ∷ ds) = false
same (c ∷ cs) [] = false
same (c ∷ cs) (d ∷ ds) = eqb c d && same cs ds

-- `strings.HasPrefix(s, prefix)`, the prefix first
unfoldable pub has_prefix : List ℕ → List ℕ → Bool
has_prefix [] s = true
has_prefix (c ∷ cs) [] = false
has_prefix (c ∷ cs) (d ∷ ds) = eqb c d && has_prefix cs ds

-- `strings.Contains(s, sub)`, sub first
unfoldable pub contains : List ℕ → List ℕ → Bool
contains sub [] = has_prefix sub []
contains sub (c ∷ s) = has_prefix sub (c ∷ s) || contains sub s

abbrev pub drop_bytes : ℕ → List ℕ → List ℕ
drop_bytes zero s = s
drop_bytes (suc n) [] = []
drop_bytes (suc n) (c ∷ s) = drop_bytes n s

abbrev pub byte_count : List ℕ → ℕ
byte_count [] = 0
byte_count (c ∷ s) = suc (byte_count s)

-- What stands after the first occurrence of `sub`, as `strings.Index` finds it.
unfoldable pub after : List ℕ → List ℕ → Option (List ℕ)
after sub [] = if has_prefix sub [] then some [] else none
after sub (c ∷ s) =
    if has_prefix sub (c ∷ s) then some (drop_bytes (byte_count sub) (c ∷ s)) else after sub s

abbrev is_ascii_space : ℕ → Bool
is_ascii_space c = leb 9 c && leb c 13 || eqb c b' '

abbrev is_nil : List ℕ → Bool
is_nil [] = true
is_nil (c ∷ s) = false

unfoldable pub trim_start : List ℕ → List ℕ
trim_start [] = []
trim_start (c ∷ s) = if is_ascii_space c then trim_start s else c ∷ s

unfoldable pub trim_end : List ℕ → List ℕ
trim_end [] = []
trim_end (c ∷ s) = let rest = trim_end s in if is_nil rest && is_ascii_space c then [] else c ∷ rest

-- `strings.TrimSpace` of a text with no other white space at its ends than ASCII has
abbrev pub trim_space : List ℕ → List ℕ
trim_space s = trim_end (trim_start s)

unfoldable pub strip_slashes : List ℕ → List ℕ
strip_slashes [] = []
strip_slashes (c ∷ p) =
    let rest = strip_slashes p in if is_nil rest && eqb c b'/' then [] else c ∷ rest

unfoldable pub last_element : List ℕ → List ℕ → List ℕ
last_element cur [] = cur
last_element cur (c ∷ p) =
    let next = last_element [] p in
    let longer = last_element (cur ++ c ∷ []) p in if eqb c b'/' then next else longer

abbrev or_slash : List ℕ → List ℕ
or_slash [] = b'/' ∷ []
or_slash (c ∷ p) = c ∷ p

-- `filepath.Base`
unfoldable pub base_name : List ℕ → List ℕ
base_name [] = b'.' ∷ []
base_name (c ∷ p) = or_slash (last_element [] (strip_slashes (c ∷ p)))
