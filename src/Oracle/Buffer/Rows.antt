-- ===== src/Oracle/Buffer/Rows.antt =====
-- The rows of the table are those that the resolved writes make.
use mathlib.Core.Path.{fun_ext}
use parashield_backend.Base.{
  ℕ, ◌/◌, ◌≡◌, refl, ap, inl, inr, ◌∙◌, sym, Bool, true, false, Option, none, some, List, [], ◌∷◌,
  ◌++◌, length, leb, if◌then◌else◌, if_keeps, Option-cases,
}
use parashield_backend.Oracle.Reading.{screen, Screened, skipped, rejected, future, valid}
use parashield_backend.Oracle.Table.{Slot, Table, Contents, Write, written, replay}
use parashield_backend.Oracle.Buffer.{
  BufferedReading, Settled, Flush, idle, awaits_batch, awaits_single, Persisted, Event, persist,
  timer_fires, answer, shutdown, write_of, writes_of, cons_write, resolved, Service, upsert_single,
  settle, execute_upsert_batch, execute_single_upsert, splice, next_batch, begin_flush,
  flush_buffer, next_single, land, after_batch, resume_flush, push, buffered, admit,
  persist_reading, step, run,
}

-- The writes of the promises that were resolved, in their order.
abbrev prepend : Option Write → List Write → List Write
prepend none ws = ws
prepend (some w) ws = w ∷ ws

unfoldable pub landed : List Settled → List Write
landed [] = []
landed (p ∷ ps) = prepend p.write (landed ps)

prepend-append :
    (w : Option Write) (us vs ws : List Write) → us ≡ vs ++ ws → prepend w us ≡ prepend w vs ++ ws
prepend-append none us vs ws e = e
prepend-append (some w) us vs ws e = ap (λ r. w ∷ r) e

landed-append : (xs ys : List Settled) → landed (xs ++ ys) ≡ landed xs ++ landed ys
unfolding landed
landed-append [] ys = refl
landed-append (x ∷ xs) ys =
    prepend-append x.write (landed (xs ++ ys)) (landed xs) (landed ys) (landed-append xs ys)

replay-append : (ws vs : List Write) (c : Contents) → replay (ws ++ vs) c ≡ replay vs (replay ws c)
replay-append [] vs c = refl
replay-append (w ∷ ws) vs c = replay-append ws vs (written w c)

some_writes :
    (w : Option Write) (rest : Option (List Write)) (ws : List Write)
    → cons_write w rest ≡ some ws
    → (v : Write) × (vs : List Write) × (w ≡ some v) × (rest ≡ some vs) × (ws ≡ v ∷ vs)
some_writes none rest ws h = cc
some_writes (some v) none ws h = cc
some_writes (some v) (some vs) ws h = (v, vs, refl, refl, cc)

-- A batch whose requests could be made resolves its promises by those writes.
landed-resolved :
    (at : ℕ) (items : List BufferedReading) (ws : List Write)
    → writes_of at items ≡ some ws
    → landed (resolved at items) ≡ ws
unfolding writes_of landed
landed-resolved at [] ws h = cc
landed-resolved at (i ∷ items) ws h =
    let (v, vs, e, f, g) = some_writes (write_of at i.reading) (writes_of at items) ws h in
    ap (λ w. prepend w (landed (resolved at items))) e
    ∙ ap (λ r. v ∷ r) (landed-resolved at items vs f)
    ∙ sym g

module _ (table : Table) (batch_size max_buffer_size : ℕ) (start : Contents) where
  abbrev pub contents : table.State → Contents
  contents db = λ x. table.row x db

  -- The rows are those of `start` after the resolved writes.
  pub record Mirrors (s : Service table) : Type 0 where
    pub rows : contents s.db ≡ replay (landed s.settled) start

  outcome-contents :
      (r : Bool × table.State) (c d : Contents)
      → ((x : Slot) → table.row x r.1 ≡ (if r.0 then c x else d x))
      → contents r.1 ≡ (if r.0 then c else d)
  outcome-contents (true, db) c d h = fun_ext h
  outcome-contents (false, db) c d h = fun_ext h

  batch-contents :
      (at : ℕ) (items : List BufferedReading) (db : table.State)
      → let r = execute_upsert_batch table at items db in
        contents r.1
        ≡ (if r.0 then replay (landed (resolved at items)) (contents db) else contents db)
  unfolding execute_upsert_batch
  batch-contents at items db = elim (Option-cases (writes_of at items)) [
    | inl e ↦ rw e refl
    | inr (ws, e) ↦
        rw (e, landed-resolved at items ws e)
          (outcome-contents (table.transaction ws db) (replay ws (contents db)) (contents db)
            (table.row-transaction ws db))
  ]

  single-contents :
      (w : Option Write) (db : table.State)
      → let r = upsert_single table w db in
        contents r.1 ≡ (if r.0 then replay (prepend w []) (contents db) else contents db)
  single-contents none db = refl
  single-contents (some w) db =
      outcome-contents (table.upsert w db) (written w (contents db)) (contents db)
        (table.row-upsert w db)

  -- A write that is answered, with the promises that it resolves.
  landed-Mirrors :
      (settled news : List Settled) (db new : table.State)
      → contents db ≡ replay (landed settled) start
      → contents new ≡ replay (landed news) (contents db)
      → contents new ≡ replay (landed (settled ++ news)) start
  landed-Mirrors settled news db new h e =
      e
      ∙ ap (replay (landed news)) h
      ∙ sym (replay-append (landed settled) (landed news) start)
      ∙ ap (λ ws. replay ws start) (sym (landed-append settled news))

  splice-Mirrors :
      (b : List BufferedReading) (s : Service table)
      → Mirrors s
      → Mirrors (splice table batch_size max_buffer_size b s)
  splice-Mirrors [] s h = record { rows = h.rows }
  splice-Mirrors (i ∷ items) s h = record { rows = h.rows }

  next_batch-Mirrors :
      (s : Service table) → Mirrors s → Mirrors (next_batch table batch_size max_buffer_size s)
  unfolding next_batch
  next_batch-Mirrors s h = splice-Mirrors s.buffer s h

  begin_flush-Mirrors :
      (f : Flush) (b : List BufferedReading) (s : Service table)
      → Mirrors s
      → Mirrors (begin_flush table batch_size max_buffer_size f b s)
  unfolding begin_flush
  begin_flush-Mirrors idle [] s h = h
  begin_flush-Mirrors idle (i ∷ items) s h = next_batch-Mirrors s h
  begin_flush-Mirrors (awaits_batch items) b s h = h
  begin_flush-Mirrors (awaits_single i items) b s h = h

  flush_buffer-Mirrors :
      (s : Service table) → Mirrors s → Mirrors (flush_buffer table batch_size max_buffer_size s)
  unfolding flush_buffer
  flush_buffer-Mirrors s h =
      begin_flush-Mirrors s.flush s.buffer (record s { timer = false }) (record { rows = h.rows })

  next_single-Mirrors :
      (items : List BufferedReading) (s : Service table)
      → Mirrors s
      → Mirrors (next_single table batch_size max_buffer_size items s)
  unfolding next_single
  next_single-Mirrors [] s h = next_batch-Mirrors s h
  next_single-Mirrors (i ∷ items) s h = record { rows = h.rows }

  after_batch-Mirrors :
      (at : ℕ) (items : List BufferedReading) (r : Bool × table.State) (s : Service table)
      → Mirrors s
      → contents r.1
        ≡ (if r.0 then replay (landed (resolved at items)) (contents s.db) else contents s.db)
      → Mirrors (after_batch table batch_size max_buffer_size at items r s)
  unfolding after_batch
  after_batch-Mirrors at items (true, db) s h e =
      next_batch-Mirrors (land table at items db s)
        (record { rows = landed-Mirrors s.settled (resolved at items) s.db db h.rows e })
  after_batch-Mirrors at items (false, db) s h e =
      next_single-Mirrors items (record s { db = db }) (record { rows = e ∙ h.rows })

  settle-Mirrors :
      (i : BufferedReading) (w : Option Write) (r : Bool × table.State) (s : Service table)
      → Mirrors s
      → contents r.1 ≡ (if r.0 then replay (prepend w []) (contents s.db) else contents s.db)
      → Mirrors (settle table i w r s)
  unfolding landed
  settle-Mirrors i w (true, db) s h e = record {
    rows = landed-Mirrors s.settled (record { item = i; write = w } ∷ []) s.db db h.rows e;
  }
  settle-Mirrors i w (false, db) s h e = record {
    rows = landed-Mirrors s.settled (record { item = i; write = none } ∷ []) s.db db h.rows e;
  }

  single-Mirrors :
      (at : ℕ) (i : BufferedReading) (s : Service table)
      → Mirrors s
      → Mirrors (execute_single_upsert table at i s)
  unfolding execute_single_upsert
  single-Mirrors at i s h =
      let w = write_of at i.reading in
      settle-Mirrors i w (upsert_single table w s.db) s h (single-contents w s.db)

  resume_flush-Mirrors :
      (at : ℕ) (f : Flush) (s : Service table)
      → Mirrors s
      → Mirrors (resume_flush table batch_size max_buffer_size at f s)
  unfolding resume_flush
  resume_flush-Mirrors at idle s h = h
  resume_flush-Mirrors at (awaits_batch items) s h =
      after_batch-Mirrors at items (execute_upsert_batch table at items s.db) s h
        (batch-contents at items s.db)
  resume_flush-Mirrors at (awaits_single i items) s h =
      next_single-Mirrors items (execute_single_upsert table at i s) (single-Mirrors at i s h)

  push-Mirrors :
      (i : BufferedReading) (s : Service table)
      → Mirrors s
      → Mirrors (push table batch_size max_buffer_size i s)
  unfolding push
  push-Mirrors i s h =
      let t : Service table = record s { buffer = s.buffer ++ (i ∷ []) } in
      if_keeps Mirrors (leb batch_size (length t.buffer))
        (λ _. flush_buffer-Mirrors t (record { rows = h.rows })) (λ _. record { rows = h.rows })

  admit-Mirrors :
      (at : ℕ) (c : Screened) (i : BufferedReading) (s : Service table)
      → Mirrors s
      → Mirrors (admit table batch_size max_buffer_size at c i s).1
  unfolding admit buffered
  admit-Mirrors at skipped i s h = h
  admit-Mirrors at rejected i s h = h
  admit-Mirrors at future i s h = h
  admit-Mirrors at valid i s h =
      if_keeps (λ (r : Persisted × Service table). Mirrors r.1) (leb batch_size 1)
        (λ _. single-Mirrors at i s h)
        (λ _.
          if_keeps (λ (r : Persisted × Service table). Mirrors r.1)
            (leb max_buffer_size (length s.buffer)) (λ _. h) (λ _. push-Mirrors i s h))

  step-Mirrors :
      (e : Event) (s : Service table)
      → Mirrors s
      → Mirrors (step table batch_size max_buffer_size e s)
  unfolding step persist_reading
  step-Mirrors (persist at i) s h = admit-Mirrors at (screen (at / 1000) i.reading) i s h
  step-Mirrors timer_fires s h = if_keeps Mirrors s.timer (λ _. flush_buffer-Mirrors s h) (λ _. h)
  step-Mirrors (answer at) s h = resume_flush-Mirrors at s.flush s h
  step-Mirrors shutdown s h = flush_buffer-Mirrors s h

  -- Where the rows are those that the resolved writes, in their order, make of a first table, they are
  -- so after any run: a resolved promise means a row that was written, a rejected one leaves no trace.
  pub run-Mirrors :
      (events : List Event) (s : Service table)
      → Mirrors s
      → Mirrors (run table batch_size max_buffer_size events s)
  unfolding run
  run-Mirrors [] s h = h
  run-Mirrors (e ∷ events) s h =
      run-Mirrors events (step table batch_size max_buffer_size e s) (step-Mirrors e s h)
