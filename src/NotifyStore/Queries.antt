-- ===== src/NotifyStore/Queries.antt =====
-- The queries and single acknowledgements of hermes/internal/notifystore/store.go.
use mathlib.Core.Path.{subst⁻¹}
use mathlib.Core.List.{Perm}
use hermes_forge_public.Prelude.{
  ℕ, String, ◌≡◌, refl, ap, sym, ◌∙◌, inl, inr, Bool, false, not, ◌&&◌, List, [], ◌∷◌, arith, eqb,
  Bool-cases, ok, err, if◌then◌else◌,
}
use hermes_forge_public.Prelude.Int.{ℤ, pos, negsuc}
use hermes_forge_public.Sql.{select, update, affected, order_by}
use hermes_forge_public.Sql.Laws.{affected-update}
use hermes_forge_public.Sql.Filter.{select-select, select_ext}
use hermes_forge_public.Sql.Order.{IsOrdered, order_by-perm, order_by-IsOrdered}
use hermes_forge_public.NotifyStore.{
  Notification, Queue, Call, Point, exec, rows_affected, not_found, driver, mark, mark_rows,
  is_pending, is_pending_for, is_id_for, is_old, earlier, acknowledge_where, acknowledge_for_key,
  list_unacknowledged, list_unacknowledged_for_key, purge_old,
}

-- A call of which no driver call fails.
abbrev pub Works : Call → Type 0
Works c = (p : Point) → c.fails p ≡ false

update_again :
    (p : Notification → Bool) (rows : List Notification)
    → ((n : Notification) → p (mark n) ≡ false)
    → update p mark (update p mark rows) ≡ update p mark rows
update_again p [] done = refl
update_again p (n ∷ rows) done = elim (Bool-cases (p n)) [
  | inl e ↦ rw e (rw (done n) (rw (update_again p rows done)))
  | inr e ↦ rw e (rw e (rw (update_again p rows done)))
]

affected_again :
    (p : Notification → Bool) (rows : List Notification)
    → ((n : Notification) → p (mark n) ≡ false)
    → affected p (update p mark rows) ≡ 0
affected_again p rows done = omega (arith, affected-update p p mark (λ n e. (e, done n)) rows)

-- An acknowledgement that succeeds has marked its rows.
acknowledge_where-ok :
    (c : Call) (p : Notification → Bool) (q q' : Queue)
    → acknowledge_where c p q ≡ (ok tt, q')
    → q' ≡ mark_rows p q
acknowledge_where-ok c p q q' h = elim (Bool-cases (c.fails exec)) [
  | inl d ↦ let z = ap (λ o. o.0) (rw d at h) in cc
  | inr d ↦ elim (Bool-cases (c.fails rows_affected)) [
    | inl e ↦ let z = ap (λ o. o.0) (rw (d, e) at h) in cc
    | inr e ↦ elim (Bool-cases (eqb (affected p q.rows) 0)) [
      | inl f ↦ let z = ap (λ o. o.0) (rw (d, e, f) at h) in cc
      | inr f ↦ sym (ap (λ o. o.1) (rw (d, e, f) at h))
    ]
  ]
]

acknowledge_where_again :
    (d : Call) (p : Notification → Bool) (q : Queue)
    → Works d
    → ((n : Notification) → p (mark n) ≡ false)
    → acknowledge_where d p (mark_rows p q) ≡ (err not_found, mark_rows p q)
acknowledge_where_again d p q w done =
    rw (w exec, w rows_affected)
      (rw (affected_again p q.rows done, update_again p q.rows done) refl)

-- After a successful AcknowledgeForKey another one for the same id and key, with a working driver,
-- finds nothing and changes nothing.
pub acknowledge_for_key_once :
    (c d : Call) (id : ℕ) (key : String) (q q' : Queue)
    → Works d
    → acknowledge_for_key c id key q ≡ (ok tt, q')
    → acknowledge_for_key d id key q' ≡ (err not_found, q')
unfolding acknowledge_for_key
acknowledge_for_key_once c d id key q q' w h =
    subst⁻¹ (λ x. acknowledge_where d (is_id_for id key) x ≡ (err not_found, x))
      (acknowledge_where-ok c (is_id_for id key) q q' h)
      (acknowledge_where_again d (is_id_for id key) q w (λ n. ground arith))

-- Each notification that PurgeOld leaves out is acknowledged: the pending ones, of every key, are
-- listed as before, whatever fails and however many days are given.
pub list_unacknowledged-purge_old :
    (c d : Call) (days : ℤ) (q : Queue)
    → list_unacknowledged d (purge_old c days q).1 ≡ list_unacknowledged d q
unfolding list_unacknowledged purge_old
list_unacknowledged-purge_old c d (negsuc n) q = refl
list_unacknowledged-purge_old c d (pos days) q = elim (Bool-cases (c.fails exec)) [
  | inl e ↦ rw e
  | inr e ↦
      let same =
        select-select is_pending (λ n. not (is_old c.now days n)) q.rows
        ∙ select_ext (λ n. is_pending n && not (is_old c.now days n)) is_pending (λ n. ground arith)
            q.rows in
      rw e (
        ap
          (λ l.
            if d.fails Point.query
            then err (driver Point.query)
            else if d.fails Point.scan
            then err (driver Point.scan)
            else ok (order_by earlier l))
          same)
]

-- With a working driver the list for a key is a permutation of the key's pending rows, each row at
-- or after its predecessor in time.
pub list_unacknowledged_for_key-perm :
    (c : Call) (key : String) (q : Queue)
    → Works c
    → (l : List Notification) × (list_unacknowledged_for_key c key q ≡ ok l)
      × Perm l (select (is_pending_for key) q.rows)
      × IsOrdered earlier l
unfolding list_unacknowledged_for_key
list_unacknowledged_for_key-perm c key q w =
    let l = select (is_pending_for key) q.rows in
    (
      order_by earlier l,
      rw (w Point.query, w Point.scan) refl,
      order_by-perm earlier l,
      order_by-IsOrdered earlier (λ a b h. ground arith) (λ a b c h k. ground arith) l,
    )
