-- ===== src/Middleware/Idempotency/Claims.antt =====
-- Requests that overlap under internal/middleware/idempotency.go: which handlers run, and what a
-- key that has been completed gives.
use resilient_settlement_orc.Base.{
  ℕ, ◌<◌, String, Bool, true, false, ◌≡◌, refl, some, List, [], ◌∷◌, arith, str_eq, eq_iff, eq_refl,
  if◌then◌else◌,
}
use resilient_settlement_orc.Base.Int.{pos}
use resilient_settlement_orc.Base.Dict.{Dict, lookup, lookup-insert, lookup-erase}
use resilient_settlement_orc.Middleware.Idempotency.{
  Request, Response, redis_key, cached_value, processing_marker, is_mutating, answer, arrive,
  replay, is_success, finish, System, Event, arrival, completion, is_running, remove, step, run,
}
use resilient_settlement_orc.Middleware.Idempotency.Replay.{
  parse_cached_response-cached_value, cached_value-ne-marker,
}

-- No key runs twice.
abbrev pub Distinct : List String → Type 0
Distinct [] = Unit {0}
Distinct (k ∷ ks) = (is_running k ks ≡ false) × Distinct ks

-- The keys that run are distinct, and each is marked in Redis.
pub record IsExclusive (s : System) : Type 0 where
  pub distinct : Distinct s.running
  pub marked :
      (k : String) → is_running k s.running ≡ true → lookup k s.entries ≡ some processing_marker

is_running-remove :
    (k j : String) (ks : List String)
    → Distinct ks
    → is_running j (remove k ks) ≡ (if str_eq k j then false else is_running j ks)
is_running-remove k j [] d = ground (arith, eq_iff k j)
is_running-remove k j (i ∷ ks) d =
    ground (arith, eq_iff i k, eq_iff i j, eq_iff k j, is_running-remove k j ks d.1, d.0)

Distinct-remove : (k : String) (ks : List String) → Distinct ks → Distinct (remove k ks)
Distinct-remove k [] d = tt
Distinct-remove k (i ∷ ks) d =
    ground (arith, Distinct-remove k ks d.1, is_running-remove k i ks d.1, eq_iff i k, eq_iff k i)

arrive-IsExclusive :
    (s : System) (set_fails get_fails : Bool) (r : Request)
    → IsExclusive s
    → IsExclusive (step s (arrival set_fails get_fails r))
unfolding step arrive
arrive-IsExclusive s set_fails get_fails r inv = record {
  distinct = ground (arith, inv.marked (redis_key r));
  marked = λ k h. ground (
    arith,
    h,
    lookup-insert (redis_key r) k processing_marker s.entries,
    inv.marked k,
    eq_iff (redis_key r) k,
  );
}

finish-IsExclusive :
    (s : System) (write_fails : Bool) (key : String) (r : Response)
    → IsExclusive s
    → IsExclusive (step s (completion write_fails key r))
unfolding step finish
finish-IsExclusive s write_fails key r inv = record {
  distinct = ground (arith, Distinct-remove key s.running inv.distinct);
  marked = λ k h. ground (
    arith,
    h,
    is_running-remove key k s.running inv.distinct,
    inv.marked k,
    lookup-insert key k (cached_value r.status r.body) s.entries,
    lookup-erase key k s.entries,
  );
}

step-IsExclusive : (s : System) (e : Event) → IsExclusive s → IsExclusive (step s e)
step-IsExclusive s (arrival set_fails get_fails r) inv =
    arrive-IsExclusive s set_fails get_fails r inv
step-IsExclusive s (completion write_fails key r) inv = finish-IsExclusive s write_fails key r inv

-- Whatever requests arrive and complete, in any order, and whichever commands of Redis fail: from
-- a state where the running keys are distinct and marked, they stay so. No two handlers ever run
-- for one key.
pub run-IsExclusive : (s : System) (es : List Event) → IsExclusive s → IsExclusive (run s es)
unfolding run
run-IsExclusive s [] inv = inv
run-IsExclusive s (e ∷ es) inv = run-IsExclusive (step s e) es (step-IsExclusive s e inv)

-- A key that holds a response keeps it.
step-keeps :
    (s : System) (e : Event) (k value : String)
    → IsExclusive s
    → str_eq value processing_marker ≡ false
    → lookup k s.entries ≡ some value
    → lookup k (step s e).entries ≡ some value
unfolding step arrive finish
step-keeps s (arrival set_fails get_fails r) k value inv n h =
    ground
      (arith, lookup-insert (redis_key r) k processing_marker s.entries, eq_iff (redis_key r) k)
step-keeps s (completion write_fails key r) k value inv n h = ground (
  arith,
  inv.marked key,
  eq_iff key k,
  eq_iff value processing_marker,
  lookup-insert key k (cached_value r.status r.body) s.entries,
  lookup-erase key k s.entries,
)

run-keeps :
    (s : System) (es : List Event) (k value : String)
    → IsExclusive s
    → str_eq value processing_marker ≡ false
    → lookup k s.entries ≡ some value
    → lookup k (run s es).entries ≡ some value
unfolding run
run-keeps s [] k value inv n h = h
run-keeps s (e ∷ es) k value inv n h =
    run-keeps (step s e) es k value (step-IsExclusive s e inv) n (step-keeps s e k value inv n h)

arrive-replays :
    (r : Request) (n : ℕ) (body : String) (entries : Dict String)
    → is_mutating r.method ≡ true
    → str_eq r.key "" ≡ false
    → n < 9223372036854775808
    → lookup (redis_key r) entries ≡ some (cached_value (pos n) body)
    → arrive true false false r entries ≡ (answer (replay (pos n, body)), entries)
unfolding arrive
arrive-replays r n body entries m k fits h =
    rw (m, k, h, cached_value-ne-marker n body, parse_cached_response-cached_value n body fits) refl

completed :
    (s : System) (r : Request) (n : ℕ) (body : String) (b : Bool)
    → is_running (redis_key r) s.running ≡ true
    → is_success (pos n) ≡ true
    → lookup
        (redis_key r)
        (step s (
          completion false
            (redis_key r)
            (record { status = pos n; body = body; replayed = b }))).entries
      ≡ some (cached_value (pos n) body)
unfolding step finish
completed s r n body b running good =
    rw (running, good)
      (ground (
        arith,
        lookup-insert (redis_key r) (redis_key r) (cached_value (pos n) body) s.entries,
        eq_refl (redis_key r),
      ))

-- A handler completes the key of a request with a success, and Redis stores it. Whatever happens
-- next, a later request of a mutating method with that key, for which Redis answers, is not handed
-- on: it gets the first response again, with its status and its body, and changes nothing.
pub completion-replays :
    (s : System) (es : List Event) (r : Request) (n : ℕ) (body : String) (b : Bool)
    → IsExclusive s
    → is_running (redis_key r) s.running ≡ true
    → is_success (pos n) ≡ true
    → is_mutating r.method ≡ true
    → str_eq r.key "" ≡ false
    → let t = run s (
        completion false (redis_key r) (record { status = pos n; body = body; replayed = b })
        ∷ es) in
      arrive true false false r t.entries ≡ (answer (replay (pos n, body)), t.entries)
unfolding run
completion-replays s es r n body b inv running good m k =
    let e = completion false (redis_key r) (record { status = pos n; body = body; replayed = b }) in
    arrive-replays r n body _ m k (ground (arith, good)) (
      run-keeps (step s e) es (redis_key r) (cached_value (pos n) body) (step-IsExclusive s e inv)
        (cached_value-ne-marker n body) (completed s r n body b running good))
