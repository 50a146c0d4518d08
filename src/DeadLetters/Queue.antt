-- ===== src/DeadLetters/Queue.antt =====
-- What `Enqueue` of internal/service/dlq.go keeps, and what `List` shows of it.
use mathlib.Core.List.{append-nil}
use resilient_settlement_orc.Base.{
  ℕ, suc, ◌+◌, ◌≤◌, String, true, false, ◌≡◌, refl, sym, ap, ◌∙◌, some, List, [], ◌∷◌, ◌++◌, map,
  length, take, take-take, take-all, take-map, length-map, arith,
}
use resilient_settlement_orc.Base.Int.{pos, ◌+ℤ◌, ◌-ℤ◌}
use resilient_settlement_orc.Base.Int64.{add64, sub64, wrap64, wrap64_exact}
use resilient_settlement_orc.DeadLetters.{
  DlqEntry, Redis, IsDocumented, DlqService, done, enqueue, list, entries_of, max_len,
}

-- Entries that are parked one after the other, the last one first.
unfoldable pub enqueue_all : Redis → DlqService → List DlqEntry → DlqService
enqueue_all redis s [] = s
enqueue_all redis s (e ∷ es) = (enqueue redis e (enqueue_all redis s es)).0

cap-lem : sub64 max_len (pos 1) ≡ pos 9_999
unfolding sub64 ◌-ℤ◌
cap-lem = refl

range_end : (n : ℕ) → n ≤ 9_999 → sub64 (add64 (pos 0) (pos (suc n))) (pos 1) ≡ pos n
unfolding sub64 add64 ◌+ℤ◌ ◌-ℤ◌
range_end n h =
    rw (add_lem, wrap64_exact (pos (suc n)) (omega arith, omega arith))
      (ap wrap64 sub_lem ∙ wrap64_exact (pos n) (omega arith, omega arith))
  where
    add_lem : pos 0 +ℤ pos (suc n) ≡ pos (suc n)
    add_lem = ground arith

    sub_lem : pos (suc n) -ℤ pos 1 ≡ pos n
    sub_lem = ground arith

module _ (redis : Redis) (text : DlqEntry → String) (doc : IsDocumented redis)
    (up : (n : ℕ) → redis.down n ≡ false)
    (json : (e : DlqEntry) → redis.marshal e ≡ some (text e)) where
  pub enqueue-queue :
      (e : DlqEntry) (s : DlqService)
      → s.connected ≡ true
      → (enqueue redis e s)
        ≡ (record s { queue = take 10_000 (text e ∷ s.queue); commands = s.commands + 1 + 1 }, done)
  unfolding enqueue
  enqueue-queue e s h =
      rw
        (
          h,
          json e,
          up s.commands,
          up (s.commands + 1),
          doc.lpush_lem (text e) s.queue,
          cap-lem,
          doc.ltrim_lem 9_999 (text e ∷ s.queue),
        )
        refl

  enqueue_all-cons :
      (e : DlqEntry) (s : DlqService) (es : List DlqEntry)
      → enqueue_all redis s (e ∷ es) ≡ (enqueue redis e (enqueue_all redis s es)).0
  unfolding enqueue_all
  enqueue_all-cons e s es = refl

  enqueue_all-grown :
      (s : DlqService) (es : List DlqEntry)
      → s.connected ≡ true
      → length s.queue ≤ 10_000
      → ((enqueue_all redis s es).connected ≡ true)
        × ((enqueue_all redis s es).queue ≡ take 10_000 (map text es ++ s.queue))
  unfolding enqueue_all
  enqueue_all-grown s [] h few = (h, sym (take-all 10_000 s.queue few))
  enqueue_all-grown s (e ∷ es) h few =
      let (h', q) = enqueue_all-grown s es h few in
      rw (enqueue_all-cons e s es, enqueue-queue e (enqueue_all redis s es) h', q)
        (h', take-take 10_000 (text e) (map text es ++ s.queue))

  -- The Redis client is there, its commands are up, every entry has a JSON text, and the queue holds
  -- 10000 entries at most. However many entries are parked, the queue is then the newest 10000 of
  -- them and of those before them, the newest first.
  pub enqueue_all-queue :
      (s : DlqService) (es : List DlqEntry)
      → s.connected ≡ true
      → length s.queue ≤ 10_000
      → (enqueue_all redis s es).queue ≡ take 10_000 (map text es ++ s.queue)
  enqueue_all-queue s es h few = (enqueue_all-grown s es h few).1

  entries_of-map :
      (read : (e : DlqEntry) → redis.unmarshal (text e) ≡ some e) (es : List DlqEntry)
      → entries_of redis (map text es) ≡ es
  entries_of-map read [] = refl
  entries_of-map read (e ∷ es) = rw (read e, entries_of-map read es) refl

  list-queue :
      (n : ℕ) (s : DlqService) (es : List DlqEntry)
      → ((e : DlqEntry) → redis.unmarshal (text e) ≡ some e)
      → n ≤ 9_999
      → s.connected ≡ true
      → s.queue ≡ map text es
      → (list redis (pos 0) (pos (suc n)) s).1 ≡ some (take (suc n) es, pos (length es))
  unfolding list
  list-queue n s es read h on q =
      rw
        (
          on,
          up s.commands,
          up (s.commands + 1),
          range_end n h,
          q,
          doc.lrange_lem n (map text es),
          doc.llen_lem (map text es),
          length-map text es,
          take-map text (suc n) es,
          entries_of-map read (take (suc n) es),
        )
        refl

  -- The commands of Redis are up, and the JSON text of an entry is read back as the entry. `List` at
  -- the offset 0, after some entries have been parked in an empty queue, shows the newest of them,
  -- as many as the limit (1 to 10000) says, and how many the queue holds.
  pub list-enqueue_all :
      (n : ℕ) (s : DlqService) (es : List DlqEntry)
      → ((e : DlqEntry) → redis.unmarshal (text e) ≡ some e)
      → n ≤ 9_999
      → s.connected ≡ true
      → s.queue ≡ []
      → (list redis (pos 0) (pos (suc n)) (enqueue_all redis s es)).1
        ≡ some (take (suc n) (take 10_000 es), pos (length (take 10_000 es)))
  list-enqueue_all n s es read h on empty =
      let (on', q) = enqueue_all-grown s es on (rw empty (omega arith)) in
      let q' : (enqueue_all redis s es).queue ≡ map text (take 10_000 es) =
        q ∙ rw (empty, append-nil (map text es)) (take-map text 10_000 es) in
      list-queue n (enqueue_all redis s es) (take 10_000 es) read h on' q'
