-- ===== src/KeyStore/Lookup.antt =====
-- What Get finds after Create and after Delete.
use mathlib.Core.Path.{subst, subst⁻¹}
use Prim.Native.String
use Prim.Native.String.compare
use text.Mathlib.TextLemmas.{cons-append}
use hermes_forge_public.Prelude.{
  ℕ, String, ◌≡◌, refl, ap, sym, ◌∙◌, inl, inr, Bool, false, not, ◌||◌, Option, none, some, List,
  [], ◌∷◌, ◌++◌, arith, Bool-cases, Option-cases, eq_iff, ◌==◌, eqb, if◌then◌else◌, ok, err,
}
use hermes_forge_public.Prelude.Texts.{concat, encode}
use hermes_forge_public.Sql.{select, find, affected}
use hermes_forge_public.Sql.Laws.{find-true}
use hermes_forge_public.KeyStore.{
  not_found, Key, Call, query, exec, rows_affected, has_key, get, create, delete,
}
use hermes_forge_public.KeyStore.Unique.{insert_key-cases}

pub get-found :
    (c : Call) (key : String) (t : List Key) {k : Key}
    → get c key t ≡ ok k
    → find (has_key key) t ≡ some k
unfolding get
get-found c key t {k} h = elim (Bool-cases (c.fails query)) [
  | inl e ↦ ground arith
  | inr e ↦ elim (Option-cases (find (has_key key) t)) [
    | inl n ↦ ground arith
    | inr (x, f) ↦ ground arith
  ]
]

-- A stored key is looked up under its own name, which is not empty.
abbrev pub IsStored : Key → List Key → Type 0
IsStored k t = (find (has_key k.key) t ≡ some k) × ((k.key == "") ≡ false)

found-IsStored :
    (key : String) (t : List Key) (k : Key)
    → find (has_key key) t ≡ some k
    → (key == "") ≡ false
    → IsStored k t
found-IsStored key t k f n =
    let same_key : k.key ≡ key = (eq_iff k.key key).0 (find-true (has_key key) t f) in
    (subst⁻¹ (λ x. find (has_key x) t ≡ some k) same_key f, rw same_key n)

-- A text that begins with hk_ is not empty.
prefixed_ne_empty : (s : String) → (concat ("hk_" ∷ s ∷ []) == "") ≡ false
prefixed_ne_empty s =
    rw (cons-append "h" "k_" (String.◌++◌ s ""))
      (rw (compare.cons-nil "h" (String.◌++◌ "k_" (String.◌++◌ s ""))) refl)

pub create-IsStored :
    (c : Call) (bytes : Option (List ℕ)) (label role : String) (t t' : List Key) (k : Key)
    → create c bytes label role t ≡ (ok k, t')
    → IsStored k t'
unfolding create
create-IsStored c none label role t t' k h = ground arith
create-IsStored c (some bytes) label role t t' k h =
    let row : Key = record {
      key = concat ("hk_" ∷ encode bytes ∷ []);
      label = label;
      role = if role == "" then "user" else role;
      created_at = c.now;
    } in
    elim (insert_key-cases c row t) [
      | inl (x, r) ↦ let clash : err x ≡ ok k = ap (λ o. o.0) (sym r ∙ h) in cc
      | inr (valid, free, r) ↦
          found-IsStored row.key t' k
            (subst (λ l. find (has_key row.key) l ≡ some k) (ap (λ o. o.1) (sym r ∙ h))
              (get-found c row.key (t ++ row ∷ []) (ap (λ o. o.0) (sym r ∙ h))))
            (prefixed_ne_empty (encode bytes))
    ]

find-removed : (p : Key → Bool) (t : List Key) → find p (select (λ k. not (p k)) t) ≡ none
find-removed p [] = refl
find-removed p (k ∷ t) = elim (Bool-cases (p k)) [
  | inl e ↦ rw e (find-removed p t)
  | inr e ↦ rw e (rw e (find-removed p t))
]

-- A Delete that succeeds keeps the rows with other keys.
delete-rest :
    (c : Call) (key : String) (t : List Key) {t' : List Key}
    → delete c key t ≡ (ok tt, t')
    → delete c key t ≡ (ok tt, select (λ k. not (has_key key k)) t)
unfolding delete
delete-rest c key t {t'} h = elim (Bool-cases (c.fails exec)) [
  | inl e ↦ ground arith
  | inr e ↦ elim (Bool-cases (c.fails rows_affected || eqb (affected (has_key key) t) 0)) [
    | inl d ↦ let clash : err not_found ≡ ok tt = ap (λ o. o.0) (rw (e, d) at h) in cc
    | inr d ↦ rw (e, d) refl
  ]
]

pub delete-none :
    (c : Call) (key : String) (t t' : List Key)
    → delete c key t ≡ (ok tt, t')
    → find (has_key key) t' ≡ none
delete-none c key t t' h =
    subst (λ l. find (has_key key) l ≡ none) (ap (λ o. o.1) (sym (delete-rest c key t h) ∙ h))
      (find-removed (has_key key) t)
