-- ===== src/Oracle/Buffer/Drain.antt =====
-- The flush of the buffer ends.
use parashield_backend.Base.{
  ℕ, ◌+◌, ◌*◌, ◌-◌, ◌≤◌, ◌<◌, ◌≡◌, refl, ap, Bool, true, false, Option, List, [], ◌∷◌, length,
  length-take, length-drop, arith,
}
use parashield_backend.Oracle.Table.{Table, Write}
use parashield_backend.Oracle.Buffer.{
  BufferedReading, Flush, idle, awaits_batch, awaits_single, Service, write_of, settle,
  execute_single_upsert, upsert_single, splice, next_batch, land, next_single, after_batch,
  resume_flush,
}

-- The answers that a flush still needs for what it awaits, at most.
abbrev pub flush_work : Flush → ℕ
flush_work idle = 0
flush_work (awaits_batch items) = 1 + length items
flush_work (awaits_single i items) = 1 + length items

module _ (table : Table) (batch_size max_buffer_size : ℕ) where
  abbrev pub work : Service table → ℕ
  work s = 2 * length s.buffer + flush_work s.flush

  -- The flush with the answers of the database at some times, one for each await.
  unfoldable pub answers : List ℕ → Service table → Service table
  unfolding resume_flush
  answers [] s = s
  answers (at ∷ times) s =
      answers times (resume_flush table batch_size max_buffer_size at s.flush s)

  -- Nothing waits.
  pub record IsDrained (s : Service table) : Type 0 where
    pub flush_over : s.flush ≡ idle
    pub buffer_empty : s.buffer ≡ []

  -- A flush that is over has left nothing in the buffer.
  pub record IsDue (s : Service table) : Type 0 where
    pub due : s.flush ≡ idle → s.buffer ≡ []

  splice-work :
      (b : List BufferedReading) (s : Service table)
      → 0 < batch_size
      → s.buffer ≡ b
      → (work (splice table batch_size max_buffer_size b s) ≤ 2 * length b)
        × IsDue (splice table batch_size max_buffer_size b s)
  splice-work [] s h e = (rw e (omega arith), record { due = λ _. e })
  splice-work (i ∷ items) s h e = (
    omega (arith, length-take batch_size (i ∷ items), length-drop batch_size (i ∷ items)),
    record { due = λ e'. cc },
  )

  next_batch-work :
      (s : Service table)
      → 0 < batch_size
      → (work (next_batch table batch_size max_buffer_size s) ≤ 2 * length s.buffer)
        × IsDue (next_batch table batch_size max_buffer_size s)
  unfolding next_batch
  next_batch-work s h = splice-work s.buffer s h refl

  next_single-work :
      (items : List BufferedReading) (s : Service table)
      → 0 < batch_size
      → (work (next_single table batch_size max_buffer_size items s)
          ≤ 2 * length s.buffer + length items)
        × IsDue (next_single table batch_size max_buffer_size items s)
  unfolding next_single
  next_single-work [] s h = let (w, d) = next_batch-work s h in (omega (arith, w), d)
  next_single-work (i ∷ items) s h = (omega arith, record { due = λ e. cc })

  settle-buffer :
      (i : BufferedReading) (w : Option Write) (answer : Bool × table.State) (s : Service table)
      → (settle table i w answer s).buffer ≡ s.buffer
  settle-buffer i w (true, db) s = refl
  settle-buffer i w (false, db) s = refl

  after_batch-work :
      (at : ℕ) (items : List BufferedReading) (answer : Bool × table.State) (s : Service table)
      → 0 < batch_size
      → (work (after_batch table batch_size max_buffer_size at items answer s)
          ≤ 2 * length s.buffer + length items)
        × IsDue (after_batch table batch_size max_buffer_size at items answer s)
  unfolding after_batch
  after_batch-work at items (true, db) s h =
      let (w, d) = next_batch-work (land table at items db s) h in (omega (arith, w), d)
  after_batch-work at items (false, db) s h = next_single-work items _ h

  -- Each answer brings the flush nearer to its end.
  resume_flush-work :
      (at : ℕ) (f : Flush) (s : Service table)
      → 0 < batch_size
      → s.flush ≡ f
      → IsDue s
      → (work (resume_flush table batch_size max_buffer_size at f s) ≤ work s - 1)
        × IsDue (resume_flush table batch_size max_buffer_size at f s)
  unfolding resume_flush execute_single_upsert
  resume_flush-work at idle s h e d = (omega (arith, ap length (d.due e), ap flush_work e), d)
  resume_flush-work at (awaits_batch items) s h e d =
      let (w, d') = after_batch-work at items _ s h in (omega (arith, w, ap flush_work e), d')
  resume_flush-work at (awaits_single i items) s h e d =
      let (w, d') = next_single-work items (execute_single_upsert table at i s) h in
      (
        omega (
          arith,
          w,
          ap flush_work e,
          ap length (
              settle-buffer i (write_of at i.reading)
                (upsert_single table (write_of at i.reading) s.db) s),
        ),
        d',
      )

  no_work : (f : Flush) → flush_work f ≡ 0 → f ≡ idle
  no_work idle h = refl
  no_work (awaits_batch items) h = absurd (omega (arith, h))
  no_work (awaits_single i items) h = absurd (omega (arith, h))

  -- With a batch size of at least 1, a flush under way is over and has emptied the buffer after at most
  -- two answers for each buffered reading and one more than there are readings in its batch, whether
  -- the transactions and the single upserts succeed or fail.
  pub answers-IsDrained :
      (times : List ℕ) (s : Service table)
      → 0 < batch_size
      → IsDue s
      → work s ≤ length times
      → IsDrained (answers times s)
  unfolding answers
  answers-IsDrained [] s h d enough =
      let over : s.flush ≡ idle = no_work s.flush (omega (arith, enough)) in
      record { flush_over = over; buffer_empty = d.due over }
  answers-IsDrained (at ∷ times) s h d enough =
      let (w, d') = resume_flush-work at s.flush s h refl d in
      answers-IsDrained times _ h d' (omega (arith, w, enough))
