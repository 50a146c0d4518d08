-- ===== src/Metrics/Histograms.antt =====
-- What the histograms of internal/pkg/metrics/metrics.go count.
use resilient_settlement_orc.Base.{
  ℕ, zero, suc, Bool-cases, inl, inr, ◌+◌, ◌%◌, String, Bool, ◌≡◌, refl, ap, ◌∙◌, List, [], ◌∷◌,
  length, arith, if◌then◌else◌,
}
use resilient_settlement_orc.Base.Int.{ℤ, pos}
use resilient_settlement_orc.Base.Int64.{add64, residue, residue-add64}
use resilient_settlement_orc.Metrics.{
  Histogram, printed_buckets, new_histogram, zeros, counts_with, observe, observe_all,
  write_histogram,
}

-- The last of some numbers, or a default.
abbrev pub last_or : ℤ → List ℤ → ℤ
last_or d [] = d
last_or d (c ∷ cs) = last_or c cs

abbrev residues : List ℤ → ℕ
residues [] = 0
residues (c ∷ cs) = residue c + residues cs

printed_buckets-last :
    (cumulative : ℤ) (cs : List ℤ)
    → residue (last_or cumulative (printed_buckets cumulative cs)) % 18446744073709551616
      ≡ (residue cumulative + residues cs) % 18446744073709551616
unfolding printed_buckets
printed_buckets-last cumulative [] = omega arith
printed_buckets-last cumulative (c ∷ cs) =
    omega (arith, printed_buckets-last (add64 cumulative c) cs, residue-add64 cumulative c)

module _ {V : Type 0} (plus : V → V → V) (le : V → V → Bool) where
  -- The bounds that a value does not exceed.
  abbrev pub bounds_above : V → List V → ℕ
  bounds_above v [] = 0
  bounds_above v (b ∷ bs) = let rest = bounds_above v bs in if le v b then suc rest else rest

  abbrev pub all_above : List V → List V → ℕ
  all_above bs [] = 0
  all_above bs (v ∷ vs) = bounds_above v bs + all_above bs vs

  counts_with-residues :
      (v : V) (bs : List V) (cs : List ℤ)
      → length cs ≡ suc (length bs)
      → (residues (counts_with le v bs cs) % 18446744073709551616
          ≡ (residues cs + bounds_above v bs + 1) % 18446744073709551616)
        × (length (counts_with le v bs cs) ≡ suc (length bs))
  counts_with-residues v bs [] h = absurd (omega (arith, h))
  counts_with-residues v [] (c ∷ cs) h = (omega (arith, residue-add64 c (pos 1)), omega (arith, h))
  counts_with-residues v (b ∷ bs) (c ∷ cs) h =
      let ih = counts_with-residues v bs cs (omega (arith, h)) in
      elim (Bool-cases (le v b)) [
        | inl below ↦ rw below (omega (arith, ih.0, residue-add64 c (pos 1)), omega (arith, ih.1))
        | inr above ↦ rw above (omega (arith, ih.0), omega (arith, ih.1))
      ]

  -- The counts of a histogram, by how many values it has been given.
  record Counted (bs vs : List V) (h k : Histogram V) : Type 0 where
    same_buckets : k.buckets ≡ bs
    whole : length k.counts ≡ suc (length bs)
    in_buckets :
        residues k.counts % 18446744073709551616
        ≡ (residues h.counts + all_above bs vs + length vs) % 18446744073709551616
    in_all :
        residue k.count % 18446744073709551616
        ≡ (residue h.count + length vs) % 18446744073709551616

  observe_all-Counted :
      (vs : List V) (h : Histogram V)
      → length h.counts ≡ suc (length h.buckets)
      → Counted h.buckets vs h (observe_all plus le vs h)
  unfolding observe
  observe_all-Counted [] h e = record {
    same_buckets = refl;
    whole = e;
    in_buckets = omega arith;
    in_all = omega arith;
  }
  observe_all-Counted (v ∷ vs) h e =
      let one = counts_with-residues v h.buckets h.counts e in
      let rest = observe_all-Counted vs (observe plus le v h) one.1 in
      record {
        same_buckets = rest.same_buckets;
        whole = rest.whole;
        in_buckets = omega (arith, rest.in_buckets, one.0);
        in_all = omega (arith, rest.in_all, residue-add64 h.count (pos 1));
      }

  zeros-length : (n : ℕ) → length (zeros n) ≡ n
  zeros-length zero = refl
  zeros-length (suc n) = ap suc (zeros-length n)

  zeros-residues : (n : ℕ) → residues (zeros n) ≡ 0
  zeros-residues zero = refl
  zeros-residues (suc n) = omega (arith, zeros-residues n)

  -- A new histogram is given some values and printed. Modulo 2^64, the printed count is that of the
  -- values; but the last bucket, +Inf, which stands for all values too, is larger: by the number of
  -- pairs of a value and a bound that the value does not exceed.
  pub write_histogram-overcounts :
      (start : V) (name : String) (bs vs : List V)
      → let x = write_histogram (observe_all plus le vs (new_histogram start name bs)) in
        (residue x.count % 18446744073709551616 ≡ length vs % 18446744073709551616)
        × (residue (last_or (pos 0) x.bucket_counts) % 18446744073709551616
            ≡ (length vs + all_above bs vs) % 18446744073709551616)
  unfolding write_histogram
  write_histogram-overcounts start name bs vs =
      let h = new_histogram start name bs in
      let c = observe_all-Counted vs h (zeros-length (length bs + 1) ∙ omega arith) in
      (
        omega (arith, c.in_all),
        omega (
          arith,
          printed_buckets-last (pos 0) (observe_all plus le vs h).counts,
          c.in_buckets,
          zeros-residues (length bs + 1),
        ),
      )
