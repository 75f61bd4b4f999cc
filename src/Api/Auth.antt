-- ===== src/Api/Auth.antt =====
-- hermes/internal/httpapi/auth.go, with `path.Clean` as it uses it. A path is the list of its bytes.
pub mod Paths
pub mod Gate
use Prim.Native.Char.{code}
use Prim.Native.String.{String}
use Prim.Native.String
use hermes_forge_public.Prelude.{
  ℕ, Bool, true, false, not, ◌&&◌, ◌||◌, Option, none, some, List, [], ◌∷◌, ◌++◌, ◌==◌, eqb, Result,
  ok, err, if◌then◌else◌,
}
unfoldable pub use hermes_forge_public.Prelude.Bytes.{codes, same, has_prefix}
use hermes_forge_public.KeyStore
use hermes_forge_public.KeyStore.{Key, Call, not_found}

-- The elements of a path between its slashes; `cur` is the one being read, and some may be empty.
unfoldable pub split : List ℕ → List ℕ → List (List ℕ)
split cur [] = cur ∷ []
split cur (c ∷ p) =
    let rest = split [] p in
    let longer = split (cur ++ c ∷ []) p in elim (eqb c b'/') [ true ↦ cur ∷ rest | false ↦ longer ]

-- One element on the stack of those kept, the last one on top.
unfoldable pub resolve : Bool → List (List ℕ) → List ℕ → List (List ℕ)
resolve rooted stack part =
    if same part [] || same part (codes ".")
    then stack
    else if same part (codes "..")
    then elim stack [
      | [] ↦ elim rooted [ true ↦ [] | false ↦ part ∷ [] ]
      | top ∷ below ↦ if same top (codes "..") then part ∷ top ∷ below else below
    ]
    else part ∷ stack

unfoldable pub resolve_all : Bool → List (List ℕ) → List (List ℕ) → List (List ℕ)
resolve_all rooted stack [] = stack
resolve_all rooted stack (part ∷ parts) = resolve_all rooted (resolve rooted stack part) parts

-- The stack from its bottom on, before `rest`.
unfoldable pub unwind : List (List ℕ) → List (List ℕ) → List (List ℕ)
unwind [] rest = rest
unwind (part ∷ stack) rest = unwind stack (part ∷ rest)

unfoldable pub join : List (List ℕ) → List ℕ
join [] = []
join (part ∷ parts) = elim parts [ [] ↦ part | next ∷ more ↦ part ++ b'/' ∷ join parts ]

abbrev pub is_rooted : List ℕ → Bool
is_rooted [] = false
is_rooted (c ∷ p) = eqb c b'/'

-- The elements that `path.Clean` keeps.
unfoldable pub elements : List ℕ → List (List ℕ)
elements p = unwind (resolve_all (is_rooted p) [] (split [] p)) []

-- An unrooted path of which nothing is left is a dot.
abbrev pub join_unrooted : List (List ℕ) → List ℕ
join_unrooted [] = codes "."
join_unrooted (part ∷ parts) = join (part ∷ parts)

-- `path.Clean`
unfoldable pub clean : List ℕ → List ℕ
clean p = if is_rooted p then b'/' ∷ join (elements p) else join_unrooted (elements p)

unfoldable pub is_public_path : List ℕ → Bool
is_public_path p =
    let q = clean p in
    same q (codes "/dashboard")
    || has_prefix (codes "/dashboard/") q
    || same q (codes "/icons")
    || has_prefix (codes "/icons/") q

-- The request goes on to the routes, with the key in its context, or is refused.
pub data Verdict : Type 0 where
  passed : Option Key → Verdict
  refused : ℕ → String → Verdict

-- The response to a failed look-up.
abbrev pub key_refusal : KeyStore.Error → Verdict
key_refusal not_found = refused 401 "invalid_key"
key_refusal x = refused 500 "auth_error"

-- The look-up of a key that was sent.
unfoldable pub check_key : Call → String → List Key → Verdict
check_key c raw t = elim (KeyStore.get c raw t) [ ok k ↦ passed (some k) | err x ↦ key_refusal x ]

-- `authMiddleware`; without a keystore the keys are `none`.
unfoldable pub auth_middleware : Call → List ℕ → String → Option (List Key) → Verdict
auth_middleware c path raw keys =
    if same path (codes "/healthz") || is_public_path path then passed none else elim keys [
      | none ↦ passed none
      | some t ↦ if raw == "" then refused 401 "auth_required" else check_key c raw t
    ]
