-- ===== src/SessionStore/Rounds.antt =====
-- What a reader of a session's messages gets.
use mathlib.Core.Path.{subst}
use hermes_forge_public.Prelude.{
  ℕ, ◌<◌, String, ◌≡◌, ◌≢◌, refl, ap, sym, ◌∙◌, inl, inr, Bool, true, false, ◌&&◌, some, List, [],
  ◌∷◌, ◌++◌, arith, ◌==◌, ltb, eq_iff, eq_refl, ==-false_of_ne, Result-cases, All, Result, ok, err,
}
use hermes_forge_public.Sql.{select, first, find, insert_by, order_by}
use hermes_forge_public.Sql.Laws.{select-append}
use hermes_forge_public.Sql.Filter.{select-select, select_ext}
use hermes_forge_public.SessionStore
use hermes_forge_public.SessionStore.{
  Session, Message, Store, Call, Point, Error, in_session, insert_message, by_order, get_messages,
  get_messages_after, read_messages,
}
use hermes_forge_public.SessionStore.Sequence.{
  IsIncreasing, IsSequenced, numbered, stored, insert_message-IsInserted, stored-IsSequenced,
}

-- A call of which no driver call fails.
abbrev pub Works : Call → Type 0
Works c = (p : Point) → c.fails p ≡ false

-- Rows in their order are not moved by sorting.
order_by-IsIncreasing : (rows : List Message) → IsIncreasing rows → order_by by_order rows ≡ rows
order_by-IsIncreasing [] h = refl
order_by-IsIncreasing (m ∷ rows) h = rw (order_by-IsIncreasing rows h.1) (in_front rows h.0)
  where
    in_front :
        (l : List Message)
        → All (λ x. m.insert_order < x.insert_order) l
        → insert_by by_order m l ≡ m ∷ l
    in_front [] k = refl
    in_front (x ∷ l) k = let a = k.0 in let b : by_order m x ≡ true = ground arith in rw b

get_messages-all :
    (d : Call) (id : String) (s : Store) {sess : Session}
    → IsSequenced s
    → Works d
    → SessionStore.get d id s ≡ ok sess
    → get_messages d id "" s ≡ ok (select (in_session id) s.messages)
unfolding get_messages
get_messages-all d id s seq w e =
    rw (e, get_messages)
      (rw (w Point.query, w Point.scan)
        (ap ok (order_by-IsIncreasing (select (in_session id) s.messages) (seq id))))

get-stored :
    (d : Call) (id : String) (msg : Message) (s : Store)
    → SessionStore.get d id (stored msg s).1 ≡ SessionStore.get d id s
unfolding SessionStore.get
get-stored d id msg s = refl

get-of_messages :
    (d : Call) (id since : String) (s : Store) {l : List Message}
    → get_messages d id since s ≡ ok l
    → (sess : Session) × (SessionStore.get d id s ≡ ok sess)
unfolding get_messages
get-of_messages d id since s h = elim (Result-cases (SessionStore.get d id s)) [
  | inl (sess, e) ↦ (sess, e)
  | inr (x, e) ↦
      let failed : get_messages d id since s ≡ err x = rw (e, get_messages) refl in
      let z = sym failed ∙ h in cc
]

ok_inj : {A : Type 0} {x y : A} → ◌≡◌ {A = Result Error A} (ok x) (ok y) → x ≡ y
ok_inj h = cc

-- A full read after a successful InsertMessage returns what it returned before, then the new message
-- with the order that the insert reported.
pub get_messages-insert_message :
    (c d : Call) (msg : Message) (s s' : Store) (k : ℕ) (old : List Message)
    → IsSequenced s
    → Works d
    → get_messages d msg.session_id "" s ≡ ok old
    → insert_message c msg s ≡ (ok k, s')
    → get_messages d msg.session_id "" s' ≡ ok (old ++ record msg { insert_order = k } ∷ [])
get_messages-insert_message c d msg s s' k old seq w before h =
    let id = msg.session_id in
    let (sess, e) = get-of_messages d id "" s before in
    let same_old = ok_inj (sym (get_messages-all d id s seq w e) ∙ before) in
    elim (insert_message-IsInserted c msg s) [
      | inl (kept, (x, failed)) ↦ let z = sym (ap (λ o. o.0) h) ∙ failed in cc
      | inr f ↦
          let as_stored = sym h ∙ f in
          let same_order = ok_inj (ap (λ o. o.0) as_stored) in
          let after =
            get_messages-all d id (stored msg s).1 (stored-IsSequenced msg s seq) w
              (get-stored d id msg s ∙ e) in
          ap (λ x. get_messages d id "" x) (ap (λ o. o.1) as_stored)
          ∙ after
          ∙ ap ok (
              select-append (in_session id) s.messages (numbered msg s ∷ [])
              ∙ rw (eq_refl id) (rw (same_old, same_order) refl))
    ]

-- The rows after one of them are those with a higher order.
select_later :
    (xs ys : List Message) (m : Message)
    → IsIncreasing (xs ++ m ∷ ys)
    → select (λ x. ltb m.insert_order x.insert_order) (xs ++ m ∷ ys) ≡ ys
select_later [] ys m h =
    let self : ltb m.insert_order m.insert_order ≡ false = ground arith in
    rw self (all_later ys h.0)
  where
    all_later :
        (l : List Message)
        → All (λ x. m.insert_order < x.insert_order) l
        → select (λ x. ltb m.insert_order x.insert_order) l ≡ l
    all_later [] k = refl
    all_later (x ∷ l) k =
        let a = k.0 in
        let b : ltb m.insert_order x.insert_order ≡ true = ground arith in
        rw b (ap (λ r. x ∷ r) (all_later l k.1))
select_later (x ∷ xs) ys m h =
    let lower = at_middle (λ y. x.insert_order < y.insert_order) xs h.0 in
    let b : ltb m.insert_order x.insert_order ≡ false = ground arith in
    rw b (select_later xs ys m h.1)
  where
    at_middle : (P : Message → Type 0) (l : List Message) → All P (l ++ m ∷ ys) → P m
    at_middle P [] k = k.0
    at_middle P (y ∷ l) k = at_middle P l k.1

IsIncreasing-suffix :
    (xs ys : List Message) (m : Message) → IsIncreasing (xs ++ m ∷ ys) → IsIncreasing ys
IsIncreasing-suffix [] ys m h = h.1
IsIncreasing-suffix (x ∷ xs) ys m h = IsIncreasing-suffix xs ys m h.1

first_with :
    (p : Message → Bool) (xs ys : List Message) (m : Message)
    → All (λ x. p x ≡ false) xs
    → p m ≡ true
    → find p (xs ++ m ∷ ys) ≡ some m
first_with p [] ys m h e = rw e
first_with p (x ∷ xs) ys m h e = rw h.0 (first_with p xs ys m h.1 e)

-- A reader that passes the id of the last message it saw gets exactly the session's messages that
-- were stored after it, in their order.
pub get_messages_since :
    (d : Call) (id since : String) (s : Store) (sess : Session) (xs ys : List Message) (m : Message)
    → IsSequenced s
    → Works d
    → SessionStore.get d id s ≡ ok sess
    → select (in_session id) s.messages ≡ xs ++ m ∷ ys
    → m.id ≡ since
    → since ≢ ""
    → All (λ x. (x.id == since) ≡ false) xs
    → get_messages d id since s ≡ ok ys
unfolding get_messages get_messages_after
get_messages_since d id since s sess xs ys m seq w e split here given earlier =
    let nonempty = ==-false_of_ne since "" given in
    let is_here : (m.id == since) ≡ true = ground (arith, eq_iff m.id since) in
    let found : find (λ x. x.id == since && x.session_id == id) s.messages ≡ some m =
      ap first (sym (select-select (λ x. x.id == since) (in_session id) s.messages))
      ∙ ap (λ l. find (λ x. x.id == since) l) split
      ∙ first_with (λ x. x.id == since) xs ys m earlier is_here in
    let ordered = subst IsIncreasing split (seq id) in
    let rows : select (λ x. in_session id x && ltb m.insert_order x.insert_order) s.messages ≡ ys =
      select_ext _ _ (λ x. ground arith) s.messages
      ∙ sym (select-select (λ x. ltb m.insert_order x.insert_order) (in_session id) s.messages)
      ∙ ap (select (λ x. ltb m.insert_order x.insert_order)) split
      ∙ select_later xs ys m ordered in
    rw (e, get_messages)
      (rw nonempty (
        rw (w Point.since) (
          rw (found, get_messages_after)
            (rw (w Point.query, w Point.scan)
              (ap ok (
                ap (order_by by_order) rows
                ∙ order_by-IsIncreasing ys (IsIncreasing-suffix xs ys m ordered)))))))
