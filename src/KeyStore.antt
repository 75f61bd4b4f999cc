-- ===== src/KeyStore.antt =====
-- hermes/internal/keystore/store.go: the table of API keys. Rows stand in the order of insertion;
-- `created_at`, text with a resolution of a second, is that second.
pub mod Unique
pub mod Lookup
mod Tests
use hermes_forge_public.Prelude.{
  ℕ, zero, suc, ◌%◌, String, Bool, true, false, not, ◌||◌, Option, none, some, List, [], ◌∷◌, ◌++◌,
  ◌==◌, eqb, leb, Result, ok, err, if◌then◌else◌,
}
use hermes_forge_public.Prelude.Texts.{concat, encode}
use hermes_forge_public.Sql.{select, find, affected, order_by}

pub record Key : Type 0 where
  pub key : String
  pub label : String
  pub role : String
  pub created_at : ℕ

-- The driver calls of an operation.
pub data Point : Type 0 where
  exec query scan rows_affected : Point

-- `no_random` is an error of `rand.Read`, `check` a violated CHECK constraint.
pub data Error : Type 0 where
  not_found duplicate no_random check : Error
  driver : Point → Error

-- `fails p` says that the driver call p returns an error; `now` is the clock.
pub record Call : Type 0 where
  pub fails : Point → Bool
  pub now : ℕ

-- The argument is what `rand.Read` gives, `none` its error.
abbrev pub generate_key : Option (List ℕ) → Option String
generate_key none = none
generate_key (some bytes) = some (concat ("hk_" ∷ encode bytes ∷ []))

-- WHERE key = ?
abbrev pub has_key : String → Key → Bool
has_key key k = k.key == key

unfoldable pub get : Call → String → List Key → Result Error Key
get c key t =
    if c.fails query
    then err (driver query)
    else elim (find (has_key key) t) [ some k ↦ ok k | none ↦ err not_found ]

-- CHECK(role IN ('user', 'admin'))
abbrev pub is_role : String → Bool
is_role role = role == "user" || role == "admin"

-- The PRIMARY KEY, and UNIQUE of the label.
abbrev pub clashes : String → String → Key → Bool
clashes key label k = k.key == key || k.label == label

-- The INSERT of `Create` and what it returns.
unfoldable pub insert_key : Call → Key → List Key → Result Error Key × List Key
insert_key c k t =
    if c.fails exec
    then (err (driver exec), t)
    else if not (is_role k.role)
    then (err check, t)
    else elim (find (clashes k.key k.label) t) [
      | some _ ↦ (err duplicate, t)
      | none ↦ (get c k.key (t ++ k ∷ []), t ++ k ∷ [])
    ]

unfoldable pub create :
    Call → Option (List ℕ) → String → String → List Key → Result Error Key × List Key
create c bytes label role t = elim (generate_key bytes) [
  | none ↦ (err no_random, t)
  | some key ↦
      let k : Key = record {
        key = key;
        label = label;
        role = if role == "" then "user" else role;
        created_at = c.now;
      } in
      insert_key c k t
]

-- ORDER BY created_at ASC
abbrev pub older : Key → Key → Bool
older a b = leb a.created_at b.created_at

unfoldable pub list : Call → List Key → Result Error (List Key)
list c t =
    if c.fails query
    then err (driver query)
    else if c.fails scan
    then err (driver scan)
    else ok (order_by older t)

-- The error of `RowsAffected` is dropped, and leaves its count at 0.
unfoldable pub delete : Call → String → List Key → Result Error (Unit {0}) × List Key
delete c key t =
    let rest = select (λ k. not (has_key key k)) t in
    if c.fails exec
    then (err (driver exec), t)
    else if c.fails rows_affected || eqb (affected (has_key key) t) 0
    then (err not_found, rest)
    else (ok tt, rest)
