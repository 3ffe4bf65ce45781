-- ===== src/Oracle/Buffer/Delivery.antt =====
-- Every reading that the buffer takes is settled once and in its turn.
use mathlib.Core.List.{append_assoc, append-nil}
use parashield_backend.Base.{
  ℕ, ◌/◌, ◌<◌, ◌≡◌, refl, ap, ◌∙◌, sym, Bool, true, false, Option, List, [], ◌∷◌, ◌++◌, map, length,
  leb, if_keeps, take-append-drop, arith,
}
use parashield_backend.Oracle.Reading.{screen, Screened, skipped, rejected, future, valid}
use parashield_backend.Oracle.Table.{Table, Write}
use parashield_backend.Oracle.Buffer.{
  BufferedReading, Settled, Flush, idle, awaits_batch, awaits_single, Persisted, returned,
  bad_request, unavailable, pending, Event, persist, timer_fires, answer, shutdown, write_of,
  resolved, Service, upsert_single, settle, execute_upsert_batch, execute_single_upsert, splice,
  next_batch, begin_flush, flush_buffer, next_single, land, after_batch, resume_flush, push,
  buffered, admit, persist_reading, step, run,
}

abbrev pub held : Flush → List BufferedReading
held idle = []
held (awaits_batch items) = items
held (awaits_single i items) = i ∷ items

abbrev pub items_of : List Settled → List BufferedReading
items_of settled = map (λ p. p.item) settled

-- What a call of `persistReading` hands to the buffer.
abbrev pub taken : Persisted → BufferedReading → List BufferedReading
taken returned i = []
taken bad_request i = []
taken unavailable i = []
taken pending i = i ∷ []

items_of-append : (xs ys : List Settled) → items_of (xs ++ ys) ≡ items_of xs ++ items_of ys
items_of-append [] ys = refl
items_of-append (x ∷ xs) ys = ap (λ r. x.item ∷ r) (items_of-append xs ys)

items_of-resolved : (at : ℕ) (items : List BufferedReading) → items_of (resolved at items) ≡ items
items_of-resolved at [] = refl
items_of-resolved at (i ∷ items) = ap (λ r. i ∷ r) (items_of-resolved at items)

module _ (table : Table) (batch_size max_buffer_size : ℕ) where
  -- The readings of the service in the order of their calls: settled, in a flush, waiting.
  abbrev pub readings : Service table → List BufferedReading
  readings s = items_of s.settled ++ (held s.flush ++ s.buffer)

  splice-readings :
      (b : List BufferedReading) (s : Service table)
      → s.buffer ≡ b
      → readings (splice table batch_size max_buffer_size b s) ≡ items_of s.settled ++ b
  splice-readings [] s e = ap (λ b. items_of s.settled ++ b) e
  splice-readings (i ∷ items) s e =
      ap (λ b. items_of s.settled ++ b) (take-append-drop batch_size (i ∷ items))

  next_batch-readings :
      (s : Service table)
      → readings (next_batch table batch_size max_buffer_size s) ≡ items_of s.settled ++ s.buffer
  unfolding next_batch
  next_batch-readings s = splice-readings s.buffer s refl

  begin_flush-readings :
      (f : Flush) (b : List BufferedReading) (s : Service table)
      → s.flush ≡ f
      → readings (begin_flush table batch_size max_buffer_size f b s) ≡ readings s
  unfolding begin_flush
  begin_flush-readings idle [] s e = refl
  begin_flush-readings idle (i ∷ items) s e =
      next_batch-readings s ∙ ap (λ f. items_of s.settled ++ (held f ++ s.buffer)) (sym e)
  begin_flush-readings (awaits_batch items) b s e = refl
  begin_flush-readings (awaits_single i items) b s e = refl

  flush_buffer-readings :
      (s : Service table) → readings (flush_buffer table batch_size max_buffer_size s) ≡ readings s
  unfolding flush_buffer
  flush_buffer-readings s = begin_flush-readings s.flush s.buffer (record s { timer = false }) refl

  next_single-readings :
      (items : List BufferedReading) (s : Service table)
      → readings (next_single table batch_size max_buffer_size items s)
        ≡ items_of s.settled ++ (items ++ s.buffer)
  unfolding next_single
  next_single-readings [] s = next_batch-readings s
  next_single-readings (i ∷ items) s = refl

  after_batch-readings :
      (at : ℕ) (items : List BufferedReading) (r : Bool × table.State) (s : Service table)
      → readings (after_batch table batch_size max_buffer_size at items r s)
        ≡ items_of s.settled ++ (items ++ s.buffer)
  unfolding after_batch
  after_batch-readings at items (true, db) s =
      next_batch-readings (land table at items db s)
      ∙ ap (λ l. l ++ s.buffer)
          (items_of-append s.settled (resolved at items)
            ∙ ap (λ l. items_of s.settled ++ l) (items_of-resolved at items))
      ∙ append_assoc (items_of s.settled) items s.buffer
  after_batch-readings at items (false, db) s = next_single-readings items (record s { db = db })

  settle-buffer :
      (i : BufferedReading) (w : Option Write) (r : Bool × table.State) (s : Service table)
      → (items_of (settle table i w r s).settled ≡ items_of s.settled ++ (i ∷ []))
        × ((settle table i w r s).buffer ≡ s.buffer)
        × ((settle table i w r s).flush ≡ s.flush)
  settle-buffer i w (true, db) s = (items_of-append s.settled _, refl, refl)
  settle-buffer i w (false, db) s = (items_of-append s.settled _, refl, refl)

  resume_flush-readings :
      (at : ℕ) (f : Flush) (s : Service table)
      → s.flush ≡ f
      → readings (resume_flush table batch_size max_buffer_size at f s) ≡ readings s
  unfolding resume_flush execute_single_upsert
  resume_flush-readings at idle s e = refl
  resume_flush-readings at (awaits_batch items) s e =
      after_batch-readings at items (execute_upsert_batch table at items s.db) s
      ∙ ap (λ f. items_of s.settled ++ (held f ++ s.buffer)) (sym e)
  resume_flush-readings at (awaits_single i items) s e =
      let w = write_of at i.reading in
      let (a, b, c) = settle-buffer i w (upsert_single table w s.db) s in
      next_single-readings items (execute_single_upsert table at i s)
      ∙ ap (λ l. l ++ (items ++ (execute_single_upsert table at i s).buffer)) a
      ∙ ap (λ l. (items_of s.settled ++ (i ∷ [])) ++ (items ++ l)) b
      ∙ append_assoc (items_of s.settled) (i ∷ []) (items ++ s.buffer)
      ∙ ap (λ f. items_of s.settled ++ (held f ++ s.buffer)) (sym e)

  push-readings :
      (i : BufferedReading) (s : Service table)
      → readings (push table batch_size max_buffer_size i s) ≡ readings s ++ (i ∷ [])
  unfolding push
  push-readings i s =
      let t : Service table = record s { buffer = s.buffer ++ (i ∷ []) } in
      let pushed : readings t ≡ readings s ++ (i ∷ []) =
        ap (λ l. items_of s.settled ++ l) (sym (append_assoc (held s.flush) s.buffer (i ∷ [])))
        ∙ sym (append_assoc (items_of s.settled) (held s.flush ++ s.buffer) (i ∷ [])) in
      if_keeps (λ r. readings r ≡ readings s ++ (i ∷ [])) (leb batch_size (length t.buffer))
        (λ _. flush_buffer-readings t ∙ pushed) (λ _. pushed)

  admit-readings :
      (at : ℕ) (c : Screened) (i : BufferedReading) (s : Service table)
      → 1 < batch_size
      → let r = admit table batch_size max_buffer_size at c i s in
        readings r.1 ≡ readings s ++ taken r.0 i
  unfolding admit buffered
  admit-readings at skipped i s h = sym (append-nil (readings s))
  admit-readings at rejected i s h = sym (append-nil (readings s))
  admit-readings at future i s h = sym (append-nil (readings s))
  admit-readings at valid i s h =
      if_keeps (λ (r : Persisted × Service table). readings r.1 ≡ readings s ++ taken r.0 i)
        (leb batch_size 1) (λ direct. absurd (ground arith))
        (λ _.
          if_keeps (λ (r : Persisted × Service table). readings r.1 ≡ readings s ++ taken r.0 i)
            (leb max_buffer_size (length s.buffer)) (λ _. sym (append-nil (readings s)))
            (λ _. push-readings i s))

  -- What an event hands to the buffer, and what a run does.
  abbrev pub accepted : Event → Service table → List BufferedReading
  accepted (persist at i) s = taken (persist_reading table batch_size max_buffer_size at i s).0 i
  accepted timer_fires s = []
  accepted (answer at) s = []
  accepted shutdown s = []

  unfoldable pub all_accepted : List Event → Service table → List BufferedReading
  all_accepted [] s = []
  all_accepted (e ∷ events) s =
      accepted e s ++ all_accepted events (step table batch_size max_buffer_size e s)

  step-readings :
      (e : Event) (s : Service table)
      → 1 < batch_size
      → readings (step table batch_size max_buffer_size e s) ≡ readings s ++ accepted e s
  unfolding step persist_reading
  step-readings (persist at i) s h = admit-readings at (screen (at / 1000) i.reading) i s h
  step-readings timer_fires s h =
      if_keeps (λ r. readings r ≡ readings s) s.timer (λ _. flush_buffer-readings s) (λ _. refl)
      ∙ sym (append-nil (readings s))
  step-readings (answer at) s h =
      resume_flush-readings at s.flush s refl ∙ sym (append-nil (readings s))
  step-readings shutdown s h = flush_buffer-readings s ∙ sym (append-nil (readings s))

  -- With a batch size above 1, the readings that are settled, in a flush and waiting after a run are
  -- those of before followed by the accepted ones, in the order of the calls: none is lost, doubled or
  -- overtaken.
  pub run_delivers :
      (events : List Event) (s : Service table)
      → 1 < batch_size
      → readings (run table batch_size max_buffer_size events s)
        ≡ readings s ++ all_accepted events s
  unfolding run all_accepted
  run_delivers [] s h = sym (append-nil (readings s))
  run_delivers (e ∷ events) s h =
      run_delivers events (step table batch_size max_buffer_size e s) h
      ∙ ap (λ l. l ++ all_accepted events (step table batch_size max_buffer_size e s))
          (step-readings e s h)
      ∙ append_assoc (readings s) (accepted e s) _
