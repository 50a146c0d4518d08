-- ===== src/Ledger/Sound.antt =====
-- The relation between the tables before and after a part of a service method: the audit trail of
-- the payments, how far each has gone on, the balance sheet, and the webhook events that have been
-- received. It is used for the methods of internal/service.
use resilient_settlement_orc.Base.{
  ℕ, ◌%◌, String, ◌≡◌, refl, sym, subst, ◌∙◌, ap, none, some, ◌∷◌, arith, inl, inr, is_some, true,
}
use resilient_settlement_orc.Payment.Status.{PaymentStatus, created}
use resilient_settlement_orc.Store.Rows.{Payment, StateTransition, WebhookEvent}
use resilient_settlement_orc.Store.Tables.{Tables, find_by, find_payment, apply_change}
use resilient_settlement_orc.Store.History.{
  IsConsistent, IsChange, change-IsConsistent, create-IsConsistent, same-IsConsistent,
}
use resilient_settlement_orc.Store.Onward.{
  Onward, Onward-refl, Onward-trans, Onward-same, Onward-change, Onward-create,
}
use resilient_settlement_orc.Store.Action.{
  Result, ok, err, World, Action, End, commit, begun, continue, transaction, transaction-ok,
  transaction-atomic,
}
use resilient_settlement_orc.Ledger.Balance.{net, DistinctIds, net-lt}
use resilient_settlement_orc.Ledger.Moves.{Moves}

abbrev pub HasEvent : String → Tables → Type 0
HasEvent key t =
    is_some (find_by (λ (e : WebhookEvent). e.idempotency_key) key t.webhook_events) ≡ true

-- From `s` to `t` the audit trail, the payments' terms, the balance sheet and the events that have
-- been received are kept, where no two accounts share an identifier.
pub record Sound (s t : Tables) : Type 0 where
  pub trail : DistinctIds s.accounts → IsConsistent s → IsConsistent t
  pub distinct : DistinctIds s.accounts → DistinctIds t.accounts
  pub sheet : DistinctIds s.accounts → net t.accounts ≡ net s.accounts
  pub onward : DistinctIds s.accounts → Onward s t
  pub seen : DistinctIds s.accounts → (key : String) → HasEvent key s → HasEvent key t

pub Sound-refl : (s : Tables) → Sound s s
Sound-refl s = record {
  trail = λ d k. k;
  distinct = λ d. d;
  sheet = λ d. refl;
  onward = λ d. Onward-refl s;
  seen = λ d key h. h;
}

pub Sound-eq : {s t : Tables} → t ≡ s → Sound s t
Sound-eq {s} e = subst (λ x. Sound s x) (sym e) (Sound-refl s)

pub Sound-trans : {s t u : Tables} → Sound s t → Sound t u → Sound s u
Sound-trans {s} {t} {u} f g = record {
  trail = λ d k. g.trail (f.distinct d) (f.trail d k);
  distinct = λ d. g.distinct (f.distinct d);
  sheet = λ d. g.sheet (f.distinct d) ∙ f.sheet d;
  onward = λ d. Onward-trans s t u (f.onward d) (g.onward (f.distinct d));
  seen = λ d key h. g.seen (f.distinct d) key (f.seen d key h);
}

-- Tables that differ in neither the payments, nor the transitions, nor the accounts.
pub Sound-same :
    (s t : Tables)
    → t.payments ≡ s.payments
    → t.transitions ≡ s.transitions
    → t.accounts ≡ s.accounts
    → ((key : String) → HasEvent key s → HasEvent key t)
    → Sound s t
Sound-same s t p r a e = record {
  trail = λ d. same-IsConsistent s t p r;
  distinct = λ d. rw a d;
  sheet = λ d. ap net a;
  onward = λ d. Onward-same s t p;
  seen = λ d. e;
}

pub Sound-change :
    (id : String) (from to : PaymentStatus) (f : Payment → Payment) (row : StateTransition)
    (t : Tables) (p : Payment)
    → IsChange id from to f row
    → find_payment id t ≡ some p
    → p.status ≡ from
    → Sound t (apply_change id f row t)
Sound-change id from to f row t p c found was = record {
  trail = λ d k. change-IsConsistent id from to f row c t k p found was;
  distinct = λ d. d;
  sheet = λ d. refl;
  onward = λ d. Onward-change id from to f row t p c found was;
  seen = λ d key h. h;
}

pub Sound-Moves :
    (s t : Tables) (n : ℕ)
    → n % 18446744073709551616 ≡ 0
    → (DistinctIds s.accounts → Moves s t n)
    → Sound s t
Sound-Moves s t n z m = record {
  trail = λ d. same-IsConsistent s t (m d).same_payments (m d).same_transitions;
  distinct = λ d. (m d).distinct;
  sheet = λ d. omega (arith, (m d).sheet, z, net-lt s.accounts, net-lt t.accounts);
  onward = λ d. Onward-same s t (m d).same_payments;
  seen = λ d key h. rw (m d).same_events h;
}

pub Sound-create :
    (t : Tables) (p : Payment) (row : StateTransition)
    → find_payment p.id t ≡ none
    → p.status ≡ created
    → row.payment_id ≡ p.id
    → row.from_status ≡ none
    → row.to_status ≡ created
    → Sound t (record t { payments = p ∷ t.payments; transitions = row ∷ t.transitions })
Sound-create t p row fresh is_new mine first to = record {
  trail = λ d k. create-IsConsistent t k p row fresh is_new mine first to;
  distinct = λ d. d;
  sheet = λ d. refl;
  onward = λ d. Onward-create t p row fresh;
  seen = λ d key h. h;
}

-- The rest of a method runs where its first part has ended without an error.
pub always-Sound :
    {A B : Type 0} (s : Tables) (x : Result A × World) (f : A → Action B)
    → Sound s x.1.tables
    → ((a : A) (v : World) → Sound v.tables (f a v).1.tables)
    → Sound s (continue x f).1.tables
always-Sound s (ok a, v) f first rest = Sound-trans first (rest a v)
always-Sound s (err e, v) f first rest = first

pub continue-Sound :
    {A B : Type 0} (s : Tables) (x : Result A × World) (f : A → Action B) (b : B)
    → ((a : A) → x.0 ≡ ok a → Sound s x.1.tables)
    → ((a : A) (v : World) → (f a v).0 ≡ ok b → Sound v.tables (f a v).1.tables)
    → (continue x f).0 ≡ ok b
    → Sound s (continue x f).1.tables
continue-Sound s (err e, v) f b first rest h = cc
continue-Sound s (ok a, v) f b first rest h = Sound-trans (first a refl) (rest a v h)

-- A transaction is sound if its body is, where that commits.
pub transaction-Sound :
    {A : Type 0} (body : Action (End A)) (w : World)
    → ((a : A) → (body (begun w)).0 ≡ ok (commit a) → Sound w.tables (body (begun w)).1.tables)
    → Sound w.tables (transaction body w).1.tables
transaction-Sound {A} body w h = by_result (transaction body w).0 refl
  where
    by_result :
        (r : Result A) → (transaction body w).0 ≡ r → Sound w.tables (transaction body w).1.tables
    by_result (err e) same = Sound-eq (transaction-atomic body w e same)
    by_result (ok a) same = elim (transaction-ok body w a same) [
      | inl (done, after) ↦ Sound-trans (h a done) (Sound-eq (ap (λ (v : World). v.tables) after))
      | inr (undone, after) ↦ Sound-eq (ap (λ (v : World). v.tables) after)
    ]
