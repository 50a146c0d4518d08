-- ===== src/Middleware/Auth/Keys.antt =====
-- The keys of merchants in internal/middleware/auth.go: how they are read, and whom they let in.
use Prim.Native.String.{◌++◌}
use resilient_settlement_orc.Base.{
  String, false, ◌≡◌, ◌≢◌, ◌⊎◌, refl, sym, Option, some, none, List, [], ◌∷◌, All, arith, str_eq,
  eq_iff, Bool-cases, inl, inr, if◌then◌else◌,
}
use resilient_settlement_orc.Base.Text.{cut, contains, cut-append_text, cut-nonempty, trim_space}
use resilient_settlement_orc.Middleware.Auth.{
  MerchantKey, admin, parse_merchant_key, parse_merchant_keys, matched_key, validate_key,
  key_of_cut,
}

parse_merchant_keys-cons :
    (raw : String) (raws : List String) (k : MerchantKey)
    → trim_space raw ≡ raw
    → raw ≢ ""
    → parse_merchant_key raw ≡ k
    → parse_merchant_keys (raw ∷ raws) ≡ k ∷ parse_merchant_keys raws
unfolding parse_merchant_keys
parse_merchant_keys-cons raw raws k trimmed some_text parsed =
    rw trimmed (ground (arith, eq_iff raw "", some_text, parsed))

parse_merchant_key-cut :
    (raw merchant key : String)
    → merchant ≢ ""
    → cut 58 raw ≡ some (merchant, key)
    → parse_merchant_key raw ≡ record { merchant_id = merchant; api_key = key }
unfolding parse_merchant_key
parse_merchant_key-cut raw merchant key h c = rw c (ground (arith, eq_iff merchant "", h))

-- A key that is written as "merchant:key", with a merchant that is not empty and has no colon, and
-- with no space around it, is read back; the key itself may have colons.
pub parse_merchant_keys-joined :
    (merchant key : String) (raws : List String)
    → merchant ≢ ""
    → contains 58 merchant ≡ false
    → trim_space (merchant ++ (":" ++ key)) ≡ merchant ++ (":" ++ key)
    → parse_merchant_keys ((merchant ++ (":" ++ key)) ∷ raws)
      ≡ record { merchant_id = merchant; api_key = key } ∷ parse_merchant_keys raws
parse_merchant_keys-joined merchant key raws some_merchant no_colon trimmed =
    let c : cut 58 (merchant ++ (":" ++ key)) ≡ some (merchant, key) =
      cut-append_text 58 merchant _ key refl no_colon in
    parse_merchant_keys-cons (merchant ++ (":" ++ key)) raws _ trimmed
      (cut-nonempty 58 (merchant ++ (":" ++ key)) merchant key c)
      (parse_merchant_key-cut (merchant ++ (":" ++ key)) merchant key some_merchant c)

-- An entry of the list that has the token.
pub data Holds (token merchant : String) : List MerchantKey → Type 0 where
  here :
      {k : MerchantKey} {ks : List MerchantKey}
      → k.api_key ≡ token
      → k.merchant_id ≡ merchant
      → Holds token merchant (k ∷ ks)
  there :
      {k : MerchantKey} {ks : List MerchantKey}
      → Holds token merchant ks
      → Holds token merchant (k ∷ ks)

abbrev pub IsNamed : MerchantKey → Type 0
IsNamed k = k.merchant_id ≢ ""

admin-ne : admin ≢ ""
admin-ne e = cc e

key_of_cut-IsNamed : (raw : String) (o : Option (String × String)) → IsNamed (key_of_cut raw o)
key_of_cut-IsNamed raw none = admin-ne
key_of_cut-IsNamed raw (some (front, back)) = elim (Bool-cases (str_eq front "")) [
  | inl e ↦ rw e admin-ne
  | inr e ↦ rw e (λ h. ground (arith, h, e, eq_iff front ""))
]

parse_merchant_key-IsNamed : (raw : String) → IsNamed (parse_merchant_key raw)
unfolding parse_merchant_key
parse_merchant_key-IsNamed raw = key_of_cut-IsNamed raw (cut 58 raw)

-- A match in the list, or the match before it.
matched_key-Holds :
    (token matched : String) (ks : List MerchantKey)
    → (matched_key token matched ks ≡ matched) ⊎ Holds token (matched_key token matched ks) ks
unfolding matched_key
matched_key-Holds token matched [] = inl refl
matched_key-Holds token matched (k ∷ ks) = elim (Bool-cases (str_eq token k.api_key)) [
  | inl e ↦ rw e (elim (matched_key-Holds token k.merchant_id ks) [
    | inl same ↦ inr (here (sym ((eq_iff token k.api_key).0 e)) (sym same))
    | inr later ↦ inr (there later)
  ])
  | inr e ↦ rw e (elim (matched_key-Holds token matched ks) [
    | inl same ↦ inl same
    | inr later ↦ inr (there later)
  ])
]

parse_merchant_keys-IsNamed : (raws : List String) → All IsNamed (parse_merchant_keys raws)
unfolding parse_merchant_keys
parse_merchant_keys-IsNamed [] = tt
parse_merchant_keys-IsNamed (raw ∷ raws) = elim (Bool-cases (str_eq (trim_space raw) "")) [
  | inl e ↦ rw e (parse_merchant_keys-IsNamed raws)
  | inr e ↦ rw e (parse_merchant_key-IsNamed (trim_space raw), parse_merchant_keys-IsNamed raws)
]

-- A match that is not empty stays so.
matched_key-kept :
    (token matched : String) (ks : List MerchantKey)
    → All IsNamed ks
    → matched ≢ ""
    → matched_key token matched ks ≢ ""
unfolding matched_key
matched_key-kept token matched [] named h = h
matched_key-kept token matched (k ∷ ks) (some_name, named) h =
    elim (Bool-cases (str_eq token k.api_key)) [
      | inl e ↦ rw e (matched_key-kept token k.merchant_id ks named some_name)
      | inr e ↦ rw e (matched_key-kept token matched ks named h)
    ]

-- An entry that has the token leaves a match that is not empty.
matched_key-found :
    (token merchant : String) (ks : List MerchantKey)
    → Holds token merchant ks
    → All IsNamed ks
    → (matched : String) → matched_key token matched ks ≢ ""
unfolding matched_key
matched_key-found token merchant [] x _ _ = elim x [ ]
matched_key-found token merchant (k ∷ ks) (here e f) (some_name, named) matched =
    rw ((eq_iff token k.api_key).1 (sym e))
      (matched_key-kept token k.merchant_id ks named some_name)
matched_key-found token merchant (k ∷ ks) (there h) (some_name, named) matched =
    matched_key-found token merchant ks h named
      (if str_eq token k.api_key then k.merchant_id else matched)

-- The keys come from the configuration. Either a token is turned away and no entry has it, or it is
-- not turned away and the request goes on as a merchant whose entry has it.
pub validate_key-Holds :
    (token : String) (raws : List String)
    → let keys = parse_merchant_keys raws in
      (validate_key token keys ≡ "") × ((merchant : String) → ¬ Holds token merchant keys)
      ⊎ (validate_key token keys ≢ "") × Holds token (validate_key token keys) keys
unfolding validate_key
validate_key-Holds token raws =
    let keys : List MerchantKey = parse_merchant_keys raws in
    let found : (merchant : String) → Holds token merchant keys → matched_key token "" keys ≢ "" =
      λ merchant h. matched_key-found token merchant keys h (parse_merchant_keys-IsNamed raws) "" in
    elim (matched_key-Holds token "" keys) [
      | inl none_has ↦ inl (none_has, λ merchant h. found merchant h none_has)
      | inr has ↦ inr (found _ has, has)
    ]
