-- ===== src/Store/Onward.antt =====
-- How a payment may differ between two states of the tables.
use resilient_settlement_orc.Base.{
  String, ◌≡◌, refl, sym, ap, ◌∙◌, subst, none, some, ◌∷◌, arith, inl, inr, str_eq, eq_iff,
  Bool-cases, if◌then◌else◌,
}
use resilient_settlement_orc.Payment.Status.{PaymentStatus, validate_transition}
use resilient_settlement_orc.Payment.Lifecycle.{Reach, here, next}
use resilient_settlement_orc.Store.Rows.{Payment, StateTransition}
use resilient_settlement_orc.Store.Tables.{
  Tables, payment_id, find_payment, find_by-update_by, apply_change, map_option,
}
use resilient_settlement_orc.Store.History.{IsChange, SameTerms}

Reach-trans : {s t u : PaymentStatus} → Reach s t → Reach t u → Reach s u
Reach-trans f here = f
Reach-trans f (next r h) = next (Reach-trans f r) h

-- A payment that has gone on along its life cycle, and is otherwise what it was.
pub record Follows (p q : Payment) : Type 0 where
  pub path : Reach p.status q.status
  pub terms : SameTerms p q

Follows-refl : (p : Payment) → Follows p p
Follows-refl p = record { path = here; terms = (refl, refl, refl, refl, refl) }

Follows-trans : {p q r : Payment} → Follows p q → Follows q r → Follows p r
Follows-trans f g =
    let (m, o, a, c, s) = f.terms in
    let (m', o', a', c', s') = g.terms in
    record { path = Reach-trans f.path g.path; terms = (m' ∙ m, o' ∙ o, a' ∙ a, c' ∙ c, s' ∙ s) }

-- Every payment is still there, and has only gone on.
abbrev pub Onward : Tables → Tables → Type 0
Onward s t =
    (id : String) (p : Payment)
    → find_payment id s ≡ some p
    → (q : Payment) × (find_payment id t ≡ some q) × Follows p q

pub Onward-refl : (s : Tables) → Onward s s
Onward-refl s id p found = (p, found, Follows-refl p)

pub Onward-trans : (s t u : Tables) → Onward s t → Onward t u → Onward s u
Onward-trans s t u f g id p found =
    let (q, there, first) = f id p found in
    let (r, after, second) = g id q there in (r, after, Follows-trans first second)

pub Onward-same : (s t : Tables) → t.payments ≡ s.payments → Onward s t
Onward-same s t e id p found = (p, rw e found, Follows-refl p)

pub Onward-change :
    (id : String) (from to : PaymentStatus) (f : Payment → Payment) (row : StateTransition)
    (t : Tables) (p : Payment)
    → IsChange id from to f row
    → find_payment id t ≡ some p
    → p.status ≡ from
    → Onward t (apply_change id f row t)
Onward-change id from to f row t p c found was j q there =
    let now : find_payment j (apply_change id f row t)
        ≡ (if str_eq id j then map_option f (find_payment j t) else find_payment j t) =
      find_by-update_by payment_id id j f t.payments c.keeps_id in
    elim (Bool-cases (str_eq id j)) [
      | inl same ↦
          (f q, rw (now, same, there) refl, changed q (let e : id ≡ j = (eq_iff id j).0 same in cc))
      | inr other ↦ (q, rw (now, other) there, Follows-refl q)
    ]
  where
    is_from : (q : Payment) → q ≡ p → q.status ≡ from
    is_from q e = ap (λ (x : Payment). x.status) e ∙ was

    changed : (q : Payment) → q ≡ p → Follows q (f q)
    changed q e = record {
      path = next here (
          subst (λ s. validate_transition q.status s ≡ none) (sym (c.sets q (is_from q e)))
            (subst (λ s. validate_transition s to ≡ none) (sym (is_from q e)) c.legal));
      terms = c.keeps_terms q;
    }

pub Onward-create :
    (t : Tables) (p : Payment) (row : StateTransition)
    → find_payment p.id t ≡ none
    → Onward t (record t { payments = p ∷ t.payments; transitions = row ∷ t.transitions })
Onward-create t p row fresh j q there = elim (Bool-cases (str_eq p.id j)) [
  | inl same ↦ absurd (ground (arith, (eq_iff p.id j).0 same, fresh, there))
  | inr other ↦ (q, rw other there, Follows-refl q)
]
