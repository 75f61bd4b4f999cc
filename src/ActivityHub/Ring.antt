-- ===== src/ActivityHub/Ring.antt =====
-- The ring refines a history of all events, newest first.
use hermes_forge_public.Prelude.{
  ℕ, zero, suc, ◌+◌, ◌≤◌, ◌<◌, String, ◌≡◌, refl, ap, sym, ◌∙◌, inl, inr, Bool, true, false, not,
  List, [], ◌∷◌, ◌++◌, length, take, arith, Bool-cases, ltb, eqb, length-append, if◌then◌else◌,
}
use mathlib.Core.Path.{subst}
use mathlib.Core.List.{append_assoc, append-nil}
use hermes_forge_public.Sql.{select}
use hermes_forge_public.ActivityHub.{
  Event, Subscriber, Hub, store, slot, is_hidden, collect, recent,
}

abbrev pub visible : String → Event → Bool
visible key e = not (is_hidden key e)

-- The k events from the i-th newest on.
abbrev pub window : Hub → ℕ → ℕ → List Event
window h zero i = []
window h (suc k) i = h.ring (slot h i) ∷ window h k (suc i)

-- The hub holds the newest events of the history, as many as the ring has slots.
pub record Refines (h : Hub) (history : List Event) : Type 0 where
  pub head_in : h.head < 1024
  pub len_in : h.len ≤ 1024
  pub full : length (take 1024 history) ≡ h.len
  pub held : window h h.len 0 ≡ take 1024 history

slot-store :
    (e : Event) (h : Hub) (i : ℕ) → h.head < 1024 → i < 1023 → slot (store e h) (suc i) ≡ slot h i
slot-store e h i a b = omega arith

slot-store_new : (e : Event) (h : Hub) → h.head < 1024 → slot (store e h) 0 ≡ h.head
slot-store_new e h a = omega arith

slot_ne : (h : Hub) (i : ℕ) → h.head < 1024 → i < 1023 → eqb (slot h i) h.head ≡ false
slot_ne h i a b = ground arith

ring-store_old :
    (e : Event) (h : Hub) (i : ℕ)
    → h.head < 1024
    → i < 1023
    → (store e h).ring (slot (store e h) (suc i)) ≡ h.ring (slot h i)
ring-store_old e h i a b = rw (slot-store e h i a b) (rw (slot_ne h i a b))

ring-store_new : (e : Event) (h : Hub) → h.head < 1024 → (store e h).ring (slot (store e h) 0) ≡ e
ring-store_new e h a = rw (slot-store_new e h a) (ground arith)

window-store :
    (e : Event) (h : Hub) (k i : ℕ)
    → h.head < 1024
    → k + i ≤ 1023
    → window (store e h) k (suc i) ≡ window h k i
window-store e h zero i a b = refl
window-store e h (suc k) i a b =
    rw (ring-store_old e h i a (omega arith), window-store e h k (suc i) a (omega arith))

take-window : (h : Hub) (j k i : ℕ) → j ≤ k → take j (window h k i) ≡ window h j i
take-window h zero k i b = refl
take-window h (suc j) zero i b = absurd (omega arith)
take-window h (suc j) (suc k) i b = rw (take-window h j k (suc i) (omega arith))

length-window : (h : Hub) (k i : ℕ) → length (window h k i) ≡ k
length-window h zero i = refl
length-window h (suc k) i = rw (length-window h k (suc i))

take-take : {A : Type 0} (j k : ℕ) (l : List A) → j ≤ k → take j (take k l) ≡ take j l
take-take zero k l b = refl
take-take (suc j) zero l b = absurd (omega arith)
take-take (suc j) (suc k) [] b = refl
take-take (suc j) (suc k) (x ∷ l) b = rw (take-take j k l (omega arith))

take-length : {A : Type 0} (l : List A) (k : ℕ) → length l ≤ k → take k l ≡ l
take-length [] zero b = refl
take-length [] (suc k) b = refl
take-length (x ∷ l) zero b = absurd (omega arith)
take-length (x ∷ l) (suc k) b = rw (take-length l k (omega arith))

ltb→lt : (a b : ℕ) → ltb a b ≡ true → a < b
ltb→lt a b h = ground arith

select-length : {A : Type 0} (p : A → Bool) (l : List A) → length (select p l) ≤ length l
select-length p [] = omega arith
select-length p (x ∷ l) = elim (Bool-cases (p x)) [
  | inl e ↦ rw e (omega (arith, select-length p l))
  | inr e ↦ rw e (omega (arith, select-length p l))
]

take-select-length :
    {A : Type 0} (p : A → Bool) (l : List A) (n : ℕ)
    → take (if ltb (length l) n then length l else n) (select p l) ≡ take n (select p l)
take-select-length p l n = elim (Bool-cases (ltb (length l) n)) [
  | inr e ↦ rw e
  | inl e ↦ rw e (
      take-length (select p l) (length l) (select-length p l)
      ∙ sym (take-length (select p l) n (omega (arith, select-length p l, ltb→lt (length l) n e))))
]

collect-window :
    (h : Hub) (key : String) (n m k i : ℕ) (l : List Event)
    → n ≡ length l + m
    → collect h key n k i l ≡ l ++ take m (select (visible key) (window h k i))
unfolding collect
collect-window h key n zero zero i l b = sym (append-nil l)
collect-window h key n (suc m) zero i l b = sym (append-nil l)
collect-window h key n zero (suc k) i l b =
    let full : ltb (length l) n ≡ false = ground arith in rw full (sym (append-nil l))
collect-window h key n (suc m) (suc k) i l b =
    let room : ltb (length l) n ≡ true = ground arith in
    let e = h.ring (slot h i) in
    elim (Bool-cases (is_hidden key e)) [
      | inl c ↦ rw room (rw c (collect-window h key n (suc m) k (suc i) l b))
      | inr c ↦ rw room (
          rw c (
            collect-window h key n m k (suc i) (l ++ e ∷ [])
              (omega (arith, b, length-append l (e ∷ [])))
            ∙ append_assoc l (e ∷ []) (take m (select (visible key) (window h k (suc i))))))
    ]

-- What is still held of the old events when one more is stored.
kept :
    (e : Event) (h : Hub) (history : List Event)
    → Refines h history
    → (k : ℕ) × (k ≤ 1023) × ((store e h).len ≡ suc k) × (window h k 0 ≡ take 1023 history)
kept e h history r = elim (Bool-cases (ltb h.len 1024)) [
  | inl c ↦
      let small = ltb→lt h.len 1024 c in
      (
        h.len,
        omega arith,
        rw c (omega arith),
        sym (take-length (window h h.len 0) 1023 (omega (arith, length-window h h.len 0)))
            ∙ ap (take 1023) r.held
            ∙ take-take 1023 1024 history (omega arith),
      )
  | inr c ↦
      let exact : h.len ≡ 1024 = ground (arith, r.len_in) in
      (
        1023,
        omega arith,
        rw c exact,
        sym (take-window h 1023 h.len 0 (omega arith))
            ∙ ap (take 1023) r.held
            ∙ take-take 1023 1024 history (omega arith),
      )
]

-- The next event goes in front of the history.
pub store-Refines :
    (e : Event) (h : Hub) (history : List Event)
    → Refines h history
    → Refines (store e h) (e ∷ history)
store-Refines e h history r =
    let (k, small, len_suc, held) = kept e h history r in
    let front = ap (λ x. x ∷ take 1023 history) (ring-store_new e h r.head_in) in
    record {
      head_in = omega arith;
      len_in = omega arith;
      full = ap suc (ap length (sym held) ∙ length-window h k 0) ∙ sym len_suc;
      held =
          ap (λ n. window (store e h) n 0) len_suc
          ∙ ap (λ l. (store e h).ring (slot (store e h) 0) ∷ l)
              (window-store e h k 0 r.head_in (omega arith) ∙ held)
          ∙ front;
    }

-- Of a hub that holds the newest events of a history, Recent returns the newest n events that the
-- key may see among the 1024 newest of the history.
pub recent-Refines :
    (h : Hub) (history : List Event) (key : String) (n : ℕ)
    → Refines h history
    → recent key n h ≡ take n (select (visible key) (take 1024 history))
unfolding recent
recent-Refines h history key n r =
    let w = window h h.len 0 in
    let m = if ltb h.len n then h.len else n in
    collect-window h key m m h.len 0 [] (omega arith)
    ∙ subst
        (λ (k : ℕ).
          take (if ltb k n then k else n) (select (visible key) w)
          ≡ take n (select (visible key) w))
        (length-window h h.len 0) (take-select-length (visible key) w n)
    ∙ ap (λ l. take n (select (visible key) l)) r.held

-- The subscribers have no part in it.
window-subs :
    (h : Hub) (subs : List Subscriber) (fresh k i : ℕ)
    → window (record h { subs = subs; fresh = fresh }) k i ≡ window h k i
window-subs h subs fresh zero i = refl
window-subs h subs fresh (suc k) i = rw (window-subs h subs fresh k (suc i))

pub subs-Refines :
    (h : Hub) (subs : List Subscriber) (fresh : ℕ) (history : List Event)
    → Refines h history
    → Refines (record h { subs = subs; fresh = fresh }) history
subs-Refines h subs fresh history r = record {
  head_in = r.head_in;
  len_in = r.len_in;
  full = r.full;
  held = window-subs h subs fresh h.len 0 ∙ r.held;
}
