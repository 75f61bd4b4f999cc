-- ===== src/KeyStore/Unique.antt =====
-- The constraints of the key table, over any sequence of `Create` and `Delete`.
use mathlib.Core.Path.{subst⁻¹}
use hermes_forge_public.Prelude.{
  ℕ, String, ◌≡◌, ◌⊎◌, inl, inr, Bool, true, false, not, Option, none, some, List, [], ◌∷◌, ◌++◌,
  arith, Bool-cases, Option-cases, All, All-append, eq_iff, ◌==◌, if◌then◌else◌, err,
}
use hermes_forge_public.Prelude.Texts.{concat, encode}
use hermes_forge_public.Sql.{select, find}
use hermes_forge_public.Sql.Filter.{All-select}
use hermes_forge_public.Sql.Laws.{find_cons_none}
use hermes_forge_public.KeyStore.{
  exec, check, duplicate, driver, Key, Call, Error, has_key, clashes, is_role, get, insert_key,
  create, delete,
}

-- Two rows share neither the key nor the label.
abbrev pub Differs : Key → Key → Type 0
Differs a b = clashes a.key a.label b ≡ false

abbrev pub IsSound : List Key → Type 0
IsSound [] = Unit
IsSound (k ∷ t) = (is_role k.role ≡ true) × All (Differs k) t × IsSound t

clashes_swap : (a b : Key) → Differs a b → Differs b a
clashes_swap a b h =
    ground (
      arith,
      eq_iff a.key b.key,
      eq_iff b.key a.key,
      eq_iff a.label b.label,
      eq_iff b.label a.label,
    )

-- A row that clashes with none of the table can stand at its end.
IsSound-append :
    (k : Key) (t : List Key)
    → is_role k.role ≡ true
    → find (clashes k.key k.label) t ≡ none
    → IsSound t
    → IsSound (t ++ k ∷ [])
IsSound-append k [] r h s = (r, tt, tt)
IsSound-append k (x ∷ t) r h s =
    let (n, rest) = find_cons_none (clashes k.key k.label) x t h in
    (
      s.0,
      All-append (Differs x) t (k ∷ []) s.1 (clashes_swap k x n, tt),
      IsSound-append k t r rest s.2,
    )

IsSound-select : (p : Key → Bool) (t : List Key) → IsSound t → IsSound (select p t)
IsSound-select p [] s = tt
IsSound-select p (x ∷ t) s = elim (Bool-cases (p x)) [
  | inl e ↦ rw e (s.0, All-select (Differs x) p t s.1, IsSound-select p t s.2)
  | inr e ↦ rw e (IsSound-select p t s.2)
]

-- `Create` leaves the table, or adds a row with a role that clashes with none.
pub insert_key-cases :
    (c : Call) (k : Key) (t : List Key)
    → ((x : Error) × (insert_key c k t ≡ (err x, t)))
      ⊎ ((is_role k.role ≡ true)
          × (find (clashes k.key k.label) t ≡ none)
          × (insert_key c k t ≡ (get c k.key (t ++ k ∷ []), t ++ k ∷ [])))
unfolding insert_key
insert_key-cases c k t = elim (Bool-cases (c.fails exec)) [
  | inl e ↦ inl (driver exec, rw e)
  | inr e ↦ elim (Bool-cases (is_role k.role)) [
    | inr d ↦ inl (check, rw e (rw d))
    | inl d ↦ elim (Option-cases (find (clashes k.key k.label) t)) [
      | inl n ↦ inr (d, n, rw e (rw d (rw n)))
      | inr (x, f) ↦ inl (duplicate, rw e (rw d (rw f)))
    ]
  ]
]

pub data Op : Type 0 where
  creation : Option (List ℕ) → String → String → Op
  deletion : String → Op

-- The table after one operation, whatever it returned.
abbrev pub step : Call → Op → List Key → List Key
step c (Op.creation bytes label role) t = (create c bytes label role t).1
step c (Op.deletion key) t = (delete c key t).1

abbrev pub run : List (Call × Op) → List Key → List Key
run [] t = t
run ((c, op) ∷ ops) t = run ops (step c op t)

step-IsSound : (c : Call) (op : Op) (t : List Key) → IsSound t → IsSound (step c op t)
unfolding create delete
step-IsSound c (Op.creation none label role) t s = s
step-IsSound c (Op.creation (some bytes) label role) t s =
    let k : Key = record {
      key = concat ("hk_" ∷ encode bytes ∷ []);
      label = label;
      role = if role == "" then "user" else role;
      created_at = c.now;
    } in
    elim (insert_key-cases c k t) [
      | inl (x, r) ↦ subst⁻¹ (λ o. IsSound o.1) r s
      | inr (valid, free, r) ↦ subst⁻¹ (λ o. IsSound o.1) r (IsSound-append k t valid free s)
    ]
step-IsSound c (Op.deletion key) t s = ground (arith, IsSound-select (λ k. not (has_key key k)) t)

-- Whatever sequence of creations and deletions runs on such a table, with any driver failures and
-- any random bytes, no two rows share a key or a label, and every role is user or admin.
pub key_run-IsSound : (ops : List (Call × Op)) (t : List Key) → IsSound t → IsSound (run ops t)
key_run-IsSound [] t s = s
key_run-IsSound ((c, op) ∷ ops) t s = key_run-IsSound ops (step c op t) (step-IsSound c op t s)
