-- ===== src/Api/Auth/Paths.antt =====
-- Which paths the middleware of hermes/internal/httpapi/auth.go lets through without a key.
use mathlib.Core.List.{append-nil}
use hermes_forge_public.Prelude.{
  ℕ, some, none, ◌≡◌, refl, ap, sym, ◌∙◌, Bool, true, false, not, ◌&&◌, ◌||◌, List, [], ◌∷◌, ◌++◌,
  arith, inl, inr, Bool-cases, All, eqb, if◌then◌else◌,
}
use hermes_forge_public.KeyStore.{Key, Call}
use hermes_forge_public.Api.Auth.{
  auth_middleware, passed, refused, codes, same, has_prefix, split, resolve, resolve_all, unwind,
  join, is_rooted, elements, clean, is_public_path, join_unrooted,
}

-- A byte string without a slash.
unfoldable pub is_plain : List ℕ → Bool
is_plain [] = true
is_plain (c ∷ cs) = not (eqb c b'/') && is_plain cs

-- The first directory that a path names is one of the two public ones.
unfoldable pub is_served : List (List ℕ) → Bool
is_served [] = false
is_served (part ∷ parts) = same part (codes "dashboard") || same part (codes "icons")

-- What `path.Clean` keeps: neither empty nor with a slash.
abbrev IsElement : List ℕ → Type 0
IsElement part = (same part [] ≡ false) × (is_plain part ≡ true)

has_prefix-dir :
    (d w x : List ℕ)
    → is_plain d ≡ true
    → is_plain w ≡ true
    → has_prefix (d ++ b'/' ∷ []) (w ++ b'/' ∷ x) ≡ same w d
unfolding has_prefix is_plain same
has_prefix-dir [] [] x p q = refl
has_prefix-dir [] (c ∷ w) x p q = ground arith
has_prefix-dir (c ∷ d) [] x p q = ground arith
has_prefix-dir (c ∷ d) (e ∷ w) x p q = ground (arith, has_prefix-dir d w x)

has_prefix-plain : (d w : List ℕ) → is_plain w ≡ true → has_prefix (d ++ b'/' ∷ []) w ≡ false
unfolding has_prefix is_plain
has_prefix-plain [] [] q = refl
has_prefix-plain [] (c ∷ w) q = ground arith
has_prefix-plain (c ∷ d) [] q = refl
has_prefix-plain (c ∷ d) (e ∷ w) q = ground (arith, has_prefix-plain d w)

same-dir : (d w x : List ℕ) → is_plain d ≡ true → same (w ++ b'/' ∷ x) d ≡ false
unfolding is_plain same
same-dir [] [] x p = refl
same-dir [] (c ∷ w) x p = refl
same-dir (c ∷ d) [] x p = ground arith
same-dir (c ∷ d) (e ∷ w) x p = ground (arith, same-dir d w x)

is_plain-push :
    (cur : List ℕ) (c : ℕ)
    → is_plain cur ≡ true
    → eqb c b'/' ≡ false
    → is_plain (cur ++ c ∷ []) ≡ true
unfolding is_plain
is_plain-push [] c p n = rw n
is_plain-push (d ∷ cur) c p n = ground (arith, is_plain-push cur c)

split-plain :
    (cur p : List ℕ) → is_plain cur ≡ true → All (λ part. is_plain part ≡ true) (split cur p)
unfolding split is_plain
split-plain cur [] h = (h, tt)
split-plain cur (c ∷ p) h = elim (Bool-cases (eqb c b'/')) [
  | inl e ↦ rw (e, All) (h, split-plain [] p refl)
  | inr e ↦ rw (e, All) (split-plain (cur ++ c ∷ []) p (is_plain-push cur c h e))
]

keep-IsElement :
    (part : List ℕ)
    → (same part [] || same part (codes ".")) ≡ false
    → is_plain part ≡ true
    → IsElement part
keep-IsElement part e p = ground arith

-- The step up from a stack that is not empty.
resolve_up-elements :
    (top : List ℕ) (below : List (List ℕ)) (part : List ℕ)
    → IsElement part
    → All IsElement (top ∷ below)
    → All IsElement (if same top (codes "..") then part ∷ top ∷ below else below)
resolve_up-elements top below part q h = elim (Bool-cases (same top (codes ".."))) [
  | inl e ↦ rw (e, All) (q, h)
  | inr e ↦ rw (e, All) h.1
]

resolve_dots :
    (rooted : Bool) (stack : List (List ℕ)) (part : List ℕ)
    → All IsElement stack
    → IsElement part
    → (same part [] || same part (codes ".")) ≡ false
    → same part (codes "..") ≡ true
    → All IsElement (resolve rooted stack part)
unfolding resolve
resolve_dots true [] part h q e d = rw (e, d, All) tt
resolve_dots false [] part h q e d = rw (e, d, All) (q, tt)
resolve_dots rooted (top ∷ below) part h q e d =
    rw (e, d, All) (resolve_up-elements top below part q h)

resolve-elements :
    (rooted : Bool) (stack : List (List ℕ)) (part : List ℕ)
    → All IsElement stack
    → is_plain part ≡ true
    → All IsElement (resolve rooted stack part)
unfolding resolve
resolve-elements rooted stack part h p = elim (Bool-cases (same part [] || same part (codes "."))) [
  | inl e ↦ rw (e, All) h
  | inr e ↦ elim (Bool-cases (same part (codes ".."))) [
    | inr d ↦ rw (e, d, All) (keep-IsElement part e p, h)
    | inl d ↦ resolve_dots rooted stack part h (keep-IsElement part e p) e d
  ]
]

resolve_all-elements :
    (rooted : Bool) (stack parts : List (List ℕ))
    → All IsElement stack
    → All (λ part. is_plain part ≡ true) parts
    → All IsElement (resolve_all rooted stack parts)
unfolding resolve_all
resolve_all-elements rooted stack [] h p = h
resolve_all-elements rooted stack (part ∷ parts) h p =
    resolve_all-elements rooted (resolve rooted stack part) parts
      (resolve-elements rooted stack part h p.0) p.1

unwind-elements :
    (stack rest : List (List ℕ))
    → All IsElement stack
    → All IsElement rest
    → All IsElement (unwind stack rest)
unfolding unwind
unwind-elements [] rest h r = r
unwind-elements (part ∷ stack) rest h r = unwind-elements stack (part ∷ rest) h.1 (h.0, r)

elements-lem : (p : List ℕ) → All IsElement (elements p)
unfolding elements
elements-lem p =
    unwind-elements (resolve_all (is_rooted p) [] (split [] p)) []
      (resolve_all-elements (is_rooted p) [] (split [] p) tt
        (split-plain [] p (unfold is_plain in refl)))
      tt

-- The text of a rooted path, cleaned, against one of the directories.
abbrev names_dir : List ℕ → List ℕ → Bool
names_dir d q = same q (b'/' ∷ d) || has_prefix (b'/' ∷ d ++ b'/' ∷ []) q

names_dir-lem :
    (d part : List ℕ) (parts : List (List ℕ))
    → is_plain d ≡ true
    → is_plain part ≡ true
    → names_dir d (b'/' ∷ join (part ∷ parts)) ≡ same part d
unfolding join same has_prefix
names_dir-lem d part [] p q = rw (has_prefix-plain d part q) (ground arith)
names_dir-lem d part (next ∷ more) p q =
    rw (same-dir d part (join (next ∷ more)) p) (has_prefix-dir d part (join (next ∷ more)) p q)

rooted-lem :
    (parts : List (List ℕ))
    → All IsElement parts
    → (names_dir (codes "dashboard") (b'/' ∷ join parts)
        || names_dir (codes "icons") (b'/' ∷ join parts))
      ≡ is_served parts
unfolding is_served
rooted-lem [] h = unfold join same has_prefix in refl
rooted-lem (part ∷ parts) h =
    rw
      (
        names_dir-lem (codes "dashboard") part parts (unfold is_plain in refl) h.0.1,
        names_dir-lem (codes "icons") part parts (unfold is_plain in refl) h.0.1,
      )
      refl

-- A path that begins with an element does not begin with a slash.
starts_inside : (d part rest : List ℕ) → IsElement part → names_dir d (part ++ rest) ≡ false
unfolding same has_prefix is_plain
starts_inside d [] rest h = ground arith
starts_inside d (c ∷ w) rest h = ground arith

unrooted-lem :
    (d part : List ℕ) (parts : List (List ℕ))
    → IsElement part
    → names_dir d (join (part ∷ parts)) ≡ false
unfolding join
unrooted-lem d part [] h = ap (names_dir d) (sym (append-nil part)) ∙ starts_inside d part [] h
unrooted-lem d part (next ∷ more) h = starts_inside d part (b'/' ∷ join (next ∷ more)) h

or_shape : (a b c d : Bool) → (a || b || c || d) ≡ ((a || b) || (c || d))
or_shape a b c d = ground arith

-- The four tests of `isPublicPath` are two for each directory.
public_dirs :
    (q : List ℕ)
    → (same q (codes "/dashboard")
        || has_prefix (codes "/dashboard/") q
        || same q (codes "/icons")
        || has_prefix (codes "/icons/") q)
      ≡ (names_dir (codes "dashboard") q || names_dir (codes "icons") q)
public_dirs q =
    or_shape (same q (codes "/dashboard")) (has_prefix (codes "/dashboard/") q)
      (same q (codes "/icons")) (has_prefix (codes "/icons/") q)

-- The text that `clean` gives an unrooted path.
clean_unrooted :
    (parts : List (List ℕ))
    → All IsElement parts
    → (names_dir (codes "dashboard") (join_unrooted parts)
        || names_dir (codes "icons") (join_unrooted parts))
      ≡ false
clean_unrooted [] h = unfold same has_prefix in refl
clean_unrooted (part ∷ parts) h =
    rw
      (unrooted-lem (codes "dashboard") part parts h.0, unrooted-lem (codes "icons") part parts h.0)
      refl

-- A path is public just when it begins with a slash and the first element that is left of it, once
-- empty elements and dots are resolved, is dashboard or icons.
pub is_public_path-eq : (p : List ℕ) → is_public_path p ≡ (is_rooted p && is_served (elements p))
unfolding is_public_path clean
is_public_path-eq p = elim (Bool-cases (is_rooted p)) [
  | inl e ↦ public_dirs (clean p) ∙ rw (e, clean) (rooted-lem (elements p) (elements-lem p))
  | inr e ↦ public_dirs (clean p) ∙ rw (e, clean) (clean_unrooted (elements p) (elements-lem p))
]

-- Where there is a keystore, a request without a key is let through just when its path is /healthz, byte
-- by byte, or begins with a slash and the first element that is left of it, once empty elements and dots
-- are resolved, is dashboard or icons; any other is refused with 401 auth_required.
pub auth_middleware-keyless :
    (c : Call) (p : List ℕ) (t : List Key)
    → auth_middleware c p "" (some t) ≡ (
        if same p (codes "/healthz") || is_rooted p && is_served (elements p)
        then passed none
        else refused 401 "auth_required")
unfolding auth_middleware
auth_middleware-keyless c p t = rw (is_public_path-eq p) refl
