-- ===== src/Oracle/Buffer/Bounds.antt =====
-- The buffer's bound, and that no reading waits without a timer or a flush.
use parashield_backend.Base.{
  ℕ, ◌/◌, ◌≤◌, ◌≡◌, refl, Bool, true, false, ◌||◌, Option, List, [], ◌∷◌, ◌++◌, length, drop, leb,
  if_keeps, length-append, length-drop, arith,
}
use parashield_backend.Oracle.Reading.{screen, Screened, skipped, rejected, future, valid}
use parashield_backend.Oracle.Table.{Table, Write}
use parashield_backend.Oracle.Buffer.{
  BufferedReading, Flush, idle, awaits_batch, awaits_single, Event, persist, timer_fires, answer,
  shutdown, write_of, Service, settle, execute_single_upsert, splice, next_batch, begin_flush,
  flush_buffer, next_single, after_batch, resume_flush, push, buffered, admit, persist_reading,
  Persisted, land, step, run,
}

-- Whether a flush is under way.
abbrev pub is_flushing : Flush → Bool
is_flushing idle = false
is_flushing (awaits_batch items) = true
is_flushing (awaits_single i items) = true

-- Whether a reading in the buffer has a timer or a flush that comes for it.
abbrev pub is_awaited : List BufferedReading → Bool → Flush → Bool
is_awaited [] timer flush = true
is_awaited (i ∷ items) timer flush = timer || is_flushing flush

module _ (table : Table) (batch_size max_buffer_size : ℕ) where
  pub record IsSound (s : Service table) : Type 0 where
    pub fits : length s.buffer ≤ max_buffer_size
    pub awaited : is_awaited s.buffer s.timer s.flush ≡ true

  busy_is_awaited :
      (b : List BufferedReading) (t : Bool) (f : Flush)
      → is_flushing f ≡ true
      → is_awaited b t f ≡ true
  busy_is_awaited [] t f h = refl
  busy_is_awaited (i ∷ items) true f h = refl
  busy_is_awaited (i ∷ items) false f h = h

  timed_is_awaited : (b : List BufferedReading) (f : Flush) → is_awaited b true f ≡ true
  timed_is_awaited [] f = refl
  timed_is_awaited (i ∷ items) f = refl

  splice-IsSound :
      (b : List BufferedReading) (s : Service table)
      → s.buffer ≡ b
      → length b ≤ max_buffer_size
      → IsSound (splice table batch_size max_buffer_size b s)
  splice-IsSound [] s e h = record { fits = rw e h; awaited = rw e refl }
  splice-IsSound (i ∷ items) s e h = record {
    fits = omega (arith, length-drop batch_size (i ∷ items), h);
    awaited = busy_is_awaited (drop batch_size (i ∷ items)) s.timer _ refl;
  }

  next_batch-IsSound :
      (s : Service table)
      → length s.buffer ≤ max_buffer_size
      → IsSound (next_batch table batch_size max_buffer_size s)
  unfolding next_batch
  next_batch-IsSound s h = splice-IsSound s.buffer s refl h

  begin_flush-IsSound :
      (f : Flush) (b : List BufferedReading) (s : Service table)
      → s.flush ≡ f
      → s.buffer ≡ b
      → length b ≤ max_buffer_size
      → IsSound (begin_flush table batch_size max_buffer_size f b s)
  unfolding begin_flush
  begin_flush-IsSound idle [] s e e' h = record { fits = rw e' h; awaited = rw e' refl }
  begin_flush-IsSound idle (i ∷ items) s e e' h = next_batch-IsSound s (rw e' h)
  begin_flush-IsSound (awaits_batch items) b s e e' h = record {
    fits = rw e' h;
    awaited = busy_is_awaited s.buffer s.timer s.flush (rw e refl);
  }
  begin_flush-IsSound (awaits_single i items) b s e e' h = record {
    fits = rw e' h;
    awaited = busy_is_awaited s.buffer s.timer s.flush (rw e refl);
  }

  flush_buffer-IsSound :
      (s : Service table)
      → length s.buffer ≤ max_buffer_size
      → IsSound (flush_buffer table batch_size max_buffer_size s)
  unfolding flush_buffer
  flush_buffer-IsSound s h =
      begin_flush-IsSound s.flush s.buffer (record s { timer = false }) refl refl h

  next_single-IsSound :
      (items : List BufferedReading) (s : Service table)
      → length s.buffer ≤ max_buffer_size
      → IsSound (next_single table batch_size max_buffer_size items s)
  unfolding next_single
  next_single-IsSound [] s h = next_batch-IsSound s h
  next_single-IsSound (i ∷ items) s h = record {
    fits = h;
    awaited = busy_is_awaited s.buffer s.timer _ refl;
  }

  after_batch-IsSound :
      (at : ℕ) (items : List BufferedReading) (answer : Bool × table.State) (s : Service table)
      → length s.buffer ≤ max_buffer_size
      → IsSound (after_batch table batch_size max_buffer_size at items answer s)
  unfolding after_batch next_single
  after_batch-IsSound at items (true, db) s h = next_batch-IsSound (land table at items db s) h
  after_batch-IsSound at items (false, db) s h = next_single-IsSound items _ h

  settle-buffer :
      (i : BufferedReading) (w : Option Write) (answer : Bool × table.State) (s : Service table)
      → (settle table i w answer s).buffer ≡ s.buffer
  settle-buffer i w (true, db) s = refl
  settle-buffer i w (false, db) s = refl

  settle-IsSound :
      (i : BufferedReading) (w : Option Write) (answer : Bool × table.State) (s : Service table)
      → IsSound s
      → IsSound (settle table i w answer s)
  settle-IsSound i w (true, db) s h = record { fits = h.fits; awaited = h.awaited }
  settle-IsSound i w (false, db) s h = record { fits = h.fits; awaited = h.awaited }

  resume_flush-IsSound :
      (at : ℕ) (f : Flush) (s : Service table)
      → IsSound s
      → IsSound (resume_flush table batch_size max_buffer_size at f s)
  unfolding resume_flush execute_single_upsert
  resume_flush-IsSound at idle s h = h
  resume_flush-IsSound at (awaits_batch items) s h = after_batch-IsSound at items _ s h.fits
  resume_flush-IsSound at (awaits_single i items) s h =
      next_single-IsSound items _ (rw (settle-buffer i (write_of at i.reading) _ s) h.fits)

  push-IsSound :
      (i : BufferedReading) (s : Service table)
      → leb max_buffer_size (length s.buffer) ≡ false
      → IsSound (push table batch_size max_buffer_size i s)
  unfolding push
  push-IsSound i s h =
      let room : length (s.buffer ++ (i ∷ [])) ≤ max_buffer_size =
        ground (arith, length-append s.buffer (i ∷ [])) in
      if_keeps IsSound (leb batch_size (length (s.buffer ++ (i ∷ []))))
        (λ _. flush_buffer-IsSound (record s { buffer = s.buffer ++ (i ∷ []) }) room)
        (λ _. record { fits = room; awaited = timed_is_awaited (s.buffer ++ (i ∷ [])) s.flush })

  admit-IsSound :
      (at : ℕ) (c : Screened) (i : BufferedReading) (s : Service table)
      → IsSound s
      → IsSound (admit table batch_size max_buffer_size at c i s).1
  unfolding admit buffered execute_single_upsert
  admit-IsSound at skipped i s h = h
  admit-IsSound at rejected i s h = h
  admit-IsSound at future i s h = h
  admit-IsSound at valid i s h =
      if_keeps (λ (r : Persisted × Service table). IsSound r.1) (leb batch_size 1)
        (λ _. settle-IsSound i (write_of at i.reading) _ s h)
        (λ _.
          if_keeps (λ (r : Persisted × Service table). IsSound r.1)
            (leb max_buffer_size (length s.buffer)) (λ _. h) (push-IsSound i s))

  pub step-IsSound :
      (e : Event) (s : Service table)
      → IsSound s
      → IsSound (step table batch_size max_buffer_size e s)
  unfolding step persist_reading
  step-IsSound (persist at i) s h = admit-IsSound at (screen (at / 1000) i.reading) i s h
  step-IsSound timer_fires s h =
      if_keeps IsSound s.timer (λ _. flush_buffer-IsSound s h.fits) (λ _. h)
  step-IsSound (answer at) s h = resume_flush-IsSound at s.flush s h
  step-IsSound shutdown s h = flush_buffer-IsSound s h.fits

  -- Whatever calls, timers, answers and shutdowns follow one another, the buffer holds at most
  -- `maxBufferSize` readings and, while it holds one, a timer is set or a flush is under way.
  pub run-IsSound :
      (events : List Event) (s : Service table)
      → IsSound s
      → IsSound (run table batch_size max_buffer_size events s)
  unfolding run
  run-IsSound [] s h = h
  run-IsSound (e ∷ events) s h = run-IsSound events _ (step-IsSound e s h)
