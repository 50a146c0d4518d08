-- ===== src/Ledger/Balance.antt =====
-- The balance sheet: what a posting of internal/service/ledger.go does to the sum of all balances,
-- modulo 2^64, with debits counted up and credits down.
use resilient_settlement_orc.Base.{
  ℕ, ◌+◌, ◌-◌, ◌%◌, ◌<◌, String, false, ◌≡◌, refl, none, some, List, [], ◌∷◌, arith, inl, inr,
  str_eq, eq_iff, Bool-cases, eq_refl, subst,
}
use resilient_settlement_orc.Base.Int.{ℤ}
use resilient_settlement_orc.Base.Int64.{residue, sub64, residue-lt, residue-add64, residue-sub64}
use resilient_settlement_orc.Store.Rows.{
  AccountType, asset, liability, revenue, expense, LedgerAccount,
}
use resilient_settlement_orc.Store.Tables.{find_by, update_by, find_by-update_by}
use resilient_settlement_orc.Ledger.{code_of, id_of, new_balance}

-- What a balance counts for.
unfoldable pub side : AccountType → ℤ → ℕ
side asset b = residue b
side expense b = residue b
side liability b = 18446744073709551616 - residue b
side revenue b = 18446744073709551616 - residue b

-- All balances together: assets and expenses less liabilities and revenue, modulo 2^64.
unfoldable pub net : List LedgerAccount → ℕ
net [] = 0
net (a ∷ xs) = (side a.account_type a.current_balance + net xs) % 18446744073709551616

pub net-lt : (xs : List LedgerAccount) → net xs < 18446744073709551616
unfolding net
net-lt [] = omega arith
net-lt (x ∷ xs) = omega arith

-- A debit less a credit.
unfoldable pub moved : ℤ → ℤ → ℕ
moved debit credit = (residue debit + 18446744073709551616 - residue credit) % 18446744073709551616

-- Whatever the type of the account, an entry moves the sheet by its debit less its credit.
side-new_balance :
    (type : AccountType) (b debit credit : ℤ)
    → side type (new_balance type b debit credit) % 18446744073709551616
      ≡ (side type b + moved debit credit) % 18446744073709551616
unfolding side new_balance moved
side-new_balance asset b debit credit = omega (
  arith,
  residue-add64 b (sub64 debit credit),
  residue-sub64 debit credit,
  residue-lt debit,
  residue-lt credit,
  residue-lt b,
)
side-new_balance expense b debit credit = omega (
  arith,
  residue-add64 b (sub64 debit credit),
  residue-sub64 debit credit,
  residue-lt debit,
  residue-lt credit,
  residue-lt b,
)
side-new_balance liability b debit credit = omega (
  arith,
  residue-add64 b (sub64 credit debit),
  residue-sub64 credit debit,
  residue-lt credit,
  residue-lt debit,
  residue-lt b,
)
side-new_balance revenue b debit credit = omega (
  arith,
  residue-add64 b (sub64 credit debit),
  residue-sub64 credit debit,
  residue-lt credit,
  residue-lt debit,
  residue-lt b,
)

-- No two accounts share an identifier.
abbrev pub DistinctIds : List LedgerAccount → Type 0
DistinctIds [] = Unit {0}
DistinctIds (a ∷ xs) = (find_by id_of a.id xs ≡ none) × DistinctIds xs

update-absent :
    (id : String) (f : LedgerAccount → LedgerAccount) (xs : List LedgerAccount)
    → find_by id_of id xs ≡ none
    → update_by id_of id f xs ≡ xs
update-absent id f [] h = refl
update-absent id f (a ∷ xs) h = ground (arith, update-absent id f xs)

found-id :
    (code id : String) (a : LedgerAccount) (xs : List LedgerAccount)
    → find_by code_of code xs ≡ some a
    → find_by id_of id xs ≡ none
    → str_eq id a.id ≡ false
found-id code id a [] h n = cc
found-id code id a (x ∷ xs) h n =
    ground (arith, found-id code id a xs, eq_iff id a.id, eq_iff x.id id)

abbrev pub with_balance : ℤ → LedgerAccount → LedgerAccount
with_balance b a = record a { current_balance = b }

net-update_head :
    (a : LedgerAccount) (b : ℤ) (xs : List LedgerAccount)
    → find_by id_of a.id xs ≡ none
    → (net (update_by id_of a.id (with_balance b) (a ∷ xs)) + side a.account_type a.current_balance)
        % 18446744073709551616
      ≡ (net (a ∷ xs) + side a.account_type b) % 18446744073709551616
unfolding net
net-update_head a b xs n =
    rw (eq_refl a.id) (rw (update-absent a.id (with_balance b) xs n) (omega arith))

net-update_at :
    (x a : LedgerAccount) (b : ℤ) (xs : List LedgerAccount)
    → x ≡ a
    → find_by id_of x.id xs ≡ none
    → (net (update_by id_of a.id (with_balance b) (x ∷ xs)) + side a.account_type a.current_balance)
        % 18446744073709551616
      ≡ (net (x ∷ xs) + side a.account_type b) % 18446744073709551616
net-update_at x a b xs e n =
    subst
      (λ y.
        (net (update_by id_of y.id (with_balance b) (x ∷ xs))
            + side y.account_type y.current_balance)
          % 18446744073709551616
        ≡ (net (x ∷ xs) + side y.account_type b) % 18446744073709551616)
      e (net-update_head x b xs n)

found_head : (x a : LedgerAccount) → some x ≡ some a → x ≡ a
found_head x a h = cc

-- Setting the balance of an account that is found by its code replaces what it counts for.
net-update :
    (code : String) (a : LedgerAccount) (b : ℤ) (xs : List LedgerAccount)
    → DistinctIds xs
    → find_by code_of code xs ≡ some a
    → (net (update_by id_of a.id (with_balance b) xs) + side a.account_type a.current_balance)
        % 18446744073709551616
      ≡ (net xs + side a.account_type b) % 18446744073709551616
unfolding net
net-update code a b [] d h = cc
net-update code a b (x ∷ xs) d h = elim (Bool-cases (str_eq x.account_code code)) [
  | inl here ↦ net-update_at x a b xs (found_head x a (rw here at h)) d.0
  | inr there ↦
      rw (found-id code x.id a xs (rw there at h) d.0)
        (omega (arith, net-update code a b xs d.1 (rw there at h)))
]

pub DistinctIds-update :
    (id : String) (b : ℤ) (xs : List LedgerAccount)
    → DistinctIds xs
    → DistinctIds (update_by id_of id (with_balance b) xs)
DistinctIds-update id b [] d = tt
DistinctIds-update id b (x ∷ xs) d = ground (
  arith,
  DistinctIds-update id b xs d.1,
  find_by-update_by id_of id x.id (with_balance b) xs (λ a. refl),
)

-- The effect of one entry on the sheet.
pub net-post :
    (code : String) (a : LedgerAccount) (debit credit : ℤ) (xs : List LedgerAccount)
    → DistinctIds xs
    → find_by code_of code xs ≡ some a
    → let b = new_balance a.account_type a.current_balance debit credit in
      net (update_by id_of a.id (with_balance b) xs)
      ≡ (net xs + moved debit credit) % 18446744073709551616
net-post code a debit credit xs d h =
    let b = new_balance a.account_type a.current_balance debit credit in
    omega (
      arith,
      net-update code a b xs d h,
      side-new_balance a.account_type a.current_balance debit credit,
      net-lt xs,
      net-lt (update_by id_of a.id (with_balance b) xs),
    )
