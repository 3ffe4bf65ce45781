-- ===== src/Oracle/Worker/Submission.antt =====
-- What the worker submits.
use parashield_backend.Base.{
  ℕ, ◌≡◌, ◌≢◌, refl, inl, inr, ◌⊎◌, Bool, true, false, ◌||◌, Option, none, some, List, [], ◌∷◌,
  ◌++◌, ◌==◌, Bool-cases, if_keeps, or_parts, ltb, ◌+◌, ◌*◌, if◌then◌else◌,
}
use parashield_backend.Base.Int.{pos}
use parashield_backend.Oracle.Reading.{
  Reading, is_below, is_zero, mock, Screened, skipped, rejected, future, valid, screen, is_finite,
  is_above, future_skew_tolerance_seconds,
}
use parashield_backend.Oracle.Table.{Table}
use parashield_backend.Oracle.OnChain.{claim_for_on_chain_submission, record_on_chain_submission}
use parashield_backend.Oracle.KeyFormat.{
  KeyKind, rainfall_key, flight_key, invalid_format, not_supported, unknown, kind_of,
}
use parashield_backend.Oracle.Worker.{
  min_confidence_of, Outside, World, fetch_with_retry, persist_as, persist, after_record,
  after_invoke, after_claim, after_persist, process_reading, process_kind, process_key,
}

-- Of confidence 0, or mock
abbrev is_unreliable : Reading → Bool
is_unreliable r = is_zero r.confidence || (r.source == mock)

never_skipped : (a b : Bool) → (if a then rejected else if b then future else valid) ≢ skipped
never_skipped true b h = cc
never_skipped false true h = cc
never_skipped false false h = cc

module _ (table : Table) (outside : Outside table) where
  -- What holds of a reading that is submitted from a world.
  pub record IsSubmission (key : List ℕ) (w : World table) (r : Reading) : Type 0 where
    pub fetched : fetch_with_retry table outside key ≡ some r
    pub known : r.no_data ≡ false
    pub confident : is_below r.confidence (min_confidence_of outside.min_confidence) ≡ false
    pub reliable : (is_zero r.confidence || (r.source == mock)) ≡ false
    pub configured : outside.has_contract ≡ true
    pub screened :
        ((screen outside.now_seconds r ≡ valid) × ((outside.store r w.db).0 ≡ true))
        ⊎ (screen outside.now_seconds r ≡ rejected)
    pub granted :
        (claim_for_on_chain_submission table r (persist table outside r w.db).1).0 ≡ some true

  -- Between two worlds there is no contract call, or one with such a reading.
  abbrev pub CallsAtMost : List ℕ → World table → World table → Type 0
  CallsAtMost key w v =
      (v.calls ≡ w.calls) ⊎ ((r : Reading) × (v.calls ≡ w.calls ++ (r ∷ [])) × IsSubmission key w r)

  after_record-calls :
      (r : Reading) (o : Bool × table.State) (w : World table)
      → (after_record table outside r o w).calls ≡ w.calls
  after_record-calls r (true, db) w = refl
  after_record-calls r (false, db) w = refl

  after_invoke-calls :
      (r : Reading) (o : Option ℕ × table.State) (w : World table)
      → (after_invoke table outside r o w).calls ≡ w.calls
  unfolding after_invoke
  after_invoke-calls r (none, db) w = refl
  after_invoke-calls r (some hash, db) w =
      after_record-calls r (record_on_chain_submission table r hash db) _

  after_claim-calls :
      (r : Reading) (o : Option Bool × table.State) (w : World table)
      → ((after_claim table outside r o w).calls ≡ w.calls)
        ⊎ (((after_claim table outside r o w).calls ≡ w.calls ++ (r ∷ [])) × (o.0 ≡ some true))
  unfolding after_claim
  after_claim-calls r (none, db) w = inl refl
  after_claim-calls r (some false, db) w = inl refl
  after_claim-calls r (some true, db) w = inr (after_invoke-calls r (outside.invoke r db) _, refl)

  after_persist-calls :
      (r : Reading) (o : Bool × table.State) (w : World table)
      → ((after_persist table outside r o w).calls ≡ w.calls)
        ⊎ (((after_persist table outside r o w).calls ≡ w.calls ++ (r ∷ []))
            × (o.0 ≡ true)
            × ((is_zero r.confidence || (r.source == mock)) ≡ false)
            × (outside.has_contract ≡ true)
            × ((claim_for_on_chain_submission table r o.1).0 ≡ some true))
  unfolding after_persist
  after_persist-calls r (false, db) w = inl refl
  after_persist-calls r (true, db) w =
      elim (Bool-cases (is_zero r.confidence || (r.source == mock))) [
        | inl e ↦ inl (rw e refl)
        | inr e ↦ elim (Bool-cases outside.has_contract) [
          | inr f ↦ inl (rw (e, f) refl)
          | inl f ↦
              elim (after_claim-calls r (claim_for_on_chain_submission table r db)
                (record w { db = db })) [
                  | inl same ↦ inl (rw (e, f) same)
                  | inr (grown, g) ↦ inr (rw (e, f) grown, refl, e, f, g)
                ]
        ]
      ]

  not_skipped :
      (now : ℕ) (r : Reading) → r.no_data ≡ false → is_unreliable r ≡ false → screen now r ≢ skipped
  unfolding screen
  not_skipped now r known reliable =
      let (nonzero, real) = or_parts (is_zero r.confidence) (r.source == mock) reliable in
      rw (nonzero, known, real)
        (never_skipped
          ((if is_finite r.confidence then false else true)
            || is_below r.confidence (pos 0)
            || is_above r.confidence (pos 100))
          (ltb ((now + future_skew_tolerance_seconds) * 1000) r.timestamp))

  screened_as :
      (o : Screened) (r : Reading) (db : table.State)
      → screen outside.now_seconds r ≡ o
      → o ≢ skipped
      → (persist_as table outside o r db).0 ≡ true
      → ((screen outside.now_seconds r ≡ valid) × ((outside.store r db).0 ≡ true))
        ⊎ (screen outside.now_seconds r ≡ rejected)
  screened_as skipped r db e n h = absurd (n refl)
  screened_as rejected r db e n h = inr e
  screened_as future r db e n h = cc
  screened_as valid r db e n h = inl (e, h)

  persist_screened :
      (r : Reading) (db : table.State)
      → r.no_data ≡ false
      → is_unreliable r ≡ false
      → (persist table outside r db).0 ≡ true
      → ((screen outside.now_seconds r ≡ valid) × ((outside.store r db).0 ≡ true))
        ⊎ (screen outside.now_seconds r ≡ rejected)
  unfolding persist
  persist_screened r db known reliable h =
      screened_as (screen outside.now_seconds r) r db refl
        (not_skipped outside.now_seconds r known reliable) h

  process_reading-calls :
      (key : List ℕ) (o : Option Reading) (w : World table)
      → fetch_with_retry table outside key ≡ o
      → CallsAtMost key w (process_reading table outside o w)
  unfolding process_reading
  process_reading-calls key none w h = inl refl
  process_reading-calls key (some r) w h =
      if_keeps (λ (v : World table). CallsAtMost key w v)
        (r.no_data || is_below r.confidence (min_confidence_of outside.min_confidence))
        (λ _. inl refl)
        (λ good.
          let (k, c) =
            or_parts r.no_data (is_below r.confidence (min_confidence_of outside.min_confidence))
              good in
          elim (after_persist-calls r (persist table outside r w.db) w) [
            | inl same ↦ inl same
            | inr (grown, p, u, f, g) ↦ inr (
              r,
              grown,
              record {
                fetched = h;
                known = k;
                confident = c;
                reliable = u;
                configured = f;
                screened = persist_screened r w.db k u p;
                granted = g;
              },
            )
          ])

  process_kind-calls :
      (kind : KeyKind) (key : List ℕ) (w : World table)
      → CallsAtMost key w (process_kind table outside kind key w)
  unfolding process_kind
  process_kind-calls rainfall_key key w = process_reading-calls key _ w refl
  process_kind-calls flight_key key w = process_reading-calls key _ w refl
  process_kind-calls invalid_format key w = inl refl
  process_kind-calls not_supported key w = inl refl
  process_kind-calls unknown key w = inl refl

  -- Processing a key makes no contract call, or one, and then with a reading that was fetched for it,
  -- is not NO_DATA, of a confidence that is not 0 and does not compare as below the minimum, and not
  -- mock; whose slot was claimed just before; and the contract is configured. persistReading has let
  -- the reading through its screening and resolved, or it has rejected the reading's confidence and
  -- returned without a write.
  pub submits_only_claimed :
      (key : List ℕ) (w : World table) → CallsAtMost key w (process_key table outside key w)
  unfolding process_key
  submits_only_claimed key w = process_kind-calls (kind_of key) key w
