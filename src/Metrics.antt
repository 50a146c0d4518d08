-- ===== src/Metrics.antt =====
-- internal/pkg/metrics: the counters, the gauges and the histograms, how they are registered and
-- observed, and the numbers that `Handler` prints. `V` stands for the floats, with their sum and their
-- order. A mutex makes each operation one step; no metric of the program has labels.
pub mod Histograms
use resilient_settlement_orc.Base.{
  ℕ, zero, suc, ◌+◌, String, Bool, true, false, Option, none, some, List, [], ◌∷◌, length,
  if◌then◌else◌,
}
use resilient_settlement_orc.Base.Dict.{Dict, insert}
use resilient_settlement_orc.Base.Int.{ℤ, pos, negsuc}
use resilient_settlement_orc.Base.Int64.{add64}

pub record Counter : Type 0 where
  pub name : String
  pub value : ℤ

pub record Gauge : Type 0 where
  pub name : String
  pub value : ℤ

pub record Histogram (V : Type 0) : Type 0 where
  pub name : String
  pub buckets : List V
  pub counts : List ℤ
  pub sum : V
  pub count : ℤ

pub data Metric (V : Type 0) : Type 0 where
  counter : Counter → Metric V
  gauge : Gauge → Metric V
  histogram : Histogram V → Metric V

-- `Counter.Inc` and `Counter.Add`
abbrev pub inc : Counter → Counter
inc c = record c { value = add64 c.value (pos 1) }

abbrev pub add : ℤ → Counter → Counter
add v c = record c { value = add64 c.value v }

-- `Gauge.Set`, `Gauge.Inc` and `Gauge.Dec`
abbrev pub set : ℤ → Gauge → Gauge
set v g = record g { value = v }

abbrev pub up : Gauge → Gauge
up g = record g { value = add64 g.value (pos 1) }

abbrev pub down : Gauge → Gauge
down g = record g { value = add64 g.value (negsuc 0) }

-- `make([]int64, n)`
abbrev pub zeros : ℕ → List ℤ
zeros zero = []
zeros (suc n) = pos 0 ∷ zeros n

-- The numbers that `writeHistogram` prints for the buckets, the last for +Inf.
unfoldable pub printed_buckets : ℤ → List ℤ → List ℤ
printed_buckets cumulative [] = []
printed_buckets cumulative (c ∷ cs) = add64 cumulative c ∷ printed_buckets (add64 cumulative c) cs

-- `NewHistogram`, without its registration
abbrev pub new_histogram : {V : Type 0} → V → String → List V → Histogram V
new_histogram zero_value name buckets = record {
  name = name;
  buckets = buckets;
  counts = zeros (length buckets + 1);
  sum = zero_value;
  count = pos 0;
}

-- The counts after a value: the last one is for +Inf.
abbrev pub counts_with : {V : Type 0} → (V → V → Bool) → V → List V → List ℤ → List ℤ
counts_with le v bs [] = []
counts_with le v [] (c ∷ cs) = add64 c (pos 1) ∷ cs
counts_with le v (b ∷ bs) (c ∷ cs) =
    let rest = counts_with le v bs cs in if le v b then add64 c (pos 1) ∷ rest else c ∷ rest

-- `Observe`
unfoldable pub observe : {V : Type 0} → (V → V → V) → (V → V → Bool) → V → Histogram V → Histogram V
observe plus le v h = record h {
  sum = plus h.sum v;
  count = add64 h.count (pos 1);
  counts = counts_with le v h.buckets h.counts;
}

abbrev pub observe_all :
    {V : Type 0} → (V → V → V) → (V → V → Bool) → List V → Histogram V → Histogram V
observe_all plus le [] h = h
observe_all plus le (v ∷ vs) h = observe_all plus le vs (observe plus le v h)

-- What `writeHistogram` prints: the buckets, the sum and the count.
pub record Printed (V : Type 0) : Type 0 where
  pub bounds : List V
  pub bucket_counts : List ℤ
  pub sum : V
  pub count : ℤ

unfoldable pub write_histogram : {V : Type 0} → Histogram V → Printed V
write_histogram h = record {
  bounds = h.buckets;
  bucket_counts = printed_buckets (pos 0) h.counts;
  sum = h.sum;
  count = h.count;
}

-- The registry: a metric under its name.
abbrev name_of : {V : Type 0} → Metric V → String
name_of (counter c) = c.name
name_of (gauge g) = g.name
name_of (histogram h) = h.name

abbrev pub register : {V : Type 0} → Metric V → Dict (Metric V) → Dict (Metric V)
register m registry = insert (name_of m) m registry
