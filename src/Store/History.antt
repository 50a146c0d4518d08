-- ===== src/Store/History.antt =====
-- The audit trail: the transitions of a payment form a path of legal changes that ends at the
-- payment's status.
use resilient_settlement_orc.Base.{
  String, false, ◌≡◌, inl, inr, sym, ◌∙◌, subst, none, some, List, [], ◌∷◌, arith, if◌then◌else◌,
  str_eq, eq_iff, eq_refl, Bool-cases,
}
use resilient_settlement_orc.Payment.Status.{PaymentStatus, created, validate_transition}
use resilient_settlement_orc.Store.Rows.{Payment, StateTransition}
use resilient_settlement_orc.Store.Tables.{
  Tables, payment_id, find_payment, history, find_by-update_by, apply_change, map_option,
}

-- The rows, newest first, lead from the creation to a status.
pub data Trail : List StateTransition → PaymentStatus → Type 0 where
  start :
      (row : StateTransition)
      → row.from_status ≡ none
      → row.to_status ≡ created
      → Trail (row ∷ []) created
  move :
      (row : StateTransition) {rows : List StateTransition} {from to : PaymentStatus}
      → Trail rows from
      → row.from_status ≡ some from
      → row.to_status ≡ to
      → validate_transition from to ≡ none
      → Trail (row ∷ rows) to

-- Every payment has its trail, and no transition is of a payment that is not there.
pub record IsConsistent (t : Tables) : Type 0 where
  pub trails :
      (id : String) (p : Payment) → find_payment id t ≡ some p → Trail (history id t) p.status
  pub no_orphans : (id : String) → find_payment id t ≡ none → history id t ≡ []

-- The parts of a payment that no change touches.
abbrev pub SameTerms : Payment → Payment → Type 0
SameTerms p q =
    (q.merchant_id ≡ p.merchant_id)
    × (q.order_id ≡ p.order_id)
    × (q.amount ≡ p.amount)
    × (q.currency ≡ p.currency)
    × (q.psp ≡ p.psp)

-- What a change does: it keeps the payment's identifier and sets its status.
pub record IsChange (id : String) (from to : PaymentStatus) (f : Payment → Payment)
    (row : StateTransition) : Type 0 where
  pub keeps_id : (p : Payment) → (f p).id ≡ p.id
  pub keeps_terms : (p : Payment) → SameTerms p (f p)
  pub sets : (p : Payment) → p.status ≡ from → (f p).status ≡ to
  pub of_payment : row.payment_id ≡ id
  pub row_from : row.from_status ≡ some from
  pub row_to : row.to_status ≡ to
  pub legal : validate_transition from to ≡ none

module _ (id : String) (from to : PaymentStatus) (f : Payment → Payment) (row : StateTransition)
    (c : IsChange id from to f row) (t : Tables) where
  find-change :
      (j : String)
      → find_payment j (apply_change id f row t)
        ≡ (if str_eq id j then map_option f (find_payment j t) else find_payment j t)
  find-change j = find_by-update_by payment_id id j f t.payments c.keeps_id

  history_self : history id (apply_change id f row t) ≡ row ∷ history id t
  history_self = ground (arith, c.of_payment, eq_refl id)

  history-other :
      (j : String) → str_eq id j ≡ false → history j (apply_change id f row t) ≡ history j t
  history-other j h = rw (c.of_payment, h)

  module _ (k : IsConsistent t) (p : Payment) (found : find_payment id t ≡ some p)
      (was : p.status ≡ from) where
    find_self : find_payment id (apply_change id f row t) ≡ some (f p)
    find_self = rw (find-change id) (rw (eq_refl id, found))

    Trail-self :
        (q : Payment)
        → find_payment id (apply_change id f row t) ≡ some q
        → Trail (history id (apply_change id f row t)) q.status
    Trail-self q e =
        let q_is : q.status ≡ to = ground (arith, find_self, c.sets p was) in
        rw (history_self, q_is)
          (move row (rw (← was) (k.trails id p found)) c.row_from c.row_to c.legal)

    Trail-at :
        (j : String)
        → id ≡ j
        → (q : Payment) → find_payment j (apply_change id f row t) ≡ some q
        → Trail (history j (apply_change id f row t)) q.status
    Trail-at j e q =
        subst
          (λ i.
            find_payment i (apply_change id f row t) ≡ some q
            → Trail (history i (apply_change id f row t)) q.status)
          e (Trail-self q)

    none-at :
        (j : String)
        → id ≡ j
        → find_payment j (apply_change id f row t) ≡ none
        → history j (apply_change id f row t) ≡ []
    none-at j e =
        subst
          (λ i.
            find_payment i (apply_change id f row t) ≡ none
            → history i (apply_change id f row t) ≡ [])
          e (λ n. let absurd_eq : some (f p) ≡ none = sym find_self ∙ n in cc absurd_eq)

    -- A legal change of a payment's status, recorded as a transition, keeps the trails.
    pub change-IsConsistent : IsConsistent (apply_change id f row t)
    change-IsConsistent = record {
      trails = λ j q e. elim (Bool-cases (str_eq id j)) [
        | inl same ↦ Trail-at j ((eq_iff id j).0 same) q e
        | inr other ↦ rw (history-other j other) (k.trails j q (rw (find-change j, other) at e))
      ];
      no_orphans = λ j e. elim (Bool-cases (str_eq id j)) [
        | inl same ↦ none-at j ((eq_iff id j).0 same) e
        | inr other ↦ rw (history-other j other) (k.no_orphans j (rw (find-change j, other) at e))
      ];
    }

-- A new payment with its first transition keeps the trails.
module _ (t : Tables) (k : IsConsistent t) (p : Payment) (row : StateTransition)
    (fresh : find_payment p.id t ≡ none) (is_new : p.status ≡ created)
    (mine : row.payment_id ≡ p.id) (first : row.from_status ≡ none)
    (to : row.to_status ≡ created) where
  abbrev with_payment : Tables
  with_payment = record t { payments = p ∷ t.payments; transitions = row ∷ t.transitions }

  own_history : (j : String) → p.id ≡ j → history j with_payment ≡ row ∷ []
  own_history j e = ground (arith, mine, e, eq_iff row.payment_id j, k.no_orphans j, fresh)

  new-Trail :
      (j : String) (q : Payment)
      → find_payment j with_payment ≡ some q
      → Trail (history j with_payment) q.status
  new-Trail j q h = elim (Bool-cases (str_eq p.id j)) [
    | inl same ↦
        let same_id = (eq_iff p.id j).0 same in
        let st : q.status ≡ created = ground arith in
        rw (own_history j same_id, st) (start row first to)
    | inr other ↦ rw (mine, other) (k.trails j q (rw other at h))
  ]

  pub create-IsConsistent : IsConsistent with_payment
  create-IsConsistent = record {
    trails = new-Trail;
    no_orphans = λ j h. elim (Bool-cases (str_eq p.id j)) [
      | inl same ↦ cc (rw same at h)
      | inr other ↦ rw (mine, other) (k.no_orphans j (rw other at h))
    ];
  }

-- The trails are a matter of two tables.
pub same-IsConsistent :
    (s t : Tables)
    → t.payments ≡ s.payments
    → t.transitions ≡ s.transitions
    → IsConsistent s
    → IsConsistent t
same-IsConsistent s t e f k = record {
  trails = λ j q h. rw f (k.trails j q (rw e at h));
  no_orphans = λ j h. rw f (k.no_orphans j (rw e at h));
}
