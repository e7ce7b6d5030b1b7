-- ===== src/Workflow/Pipelines/Stages.antt =====
-- The stages of a pipeline: each ends where the next begins, or where the machine can fail.
use mathlib.Core.Path.{subst}
use receipts_sdk.Prelude.{
  ◌≡◌, refl, sym, inl, inr, Option, none, some, Bytes, Text, text_ne, ok, err, ◌>>=◌,
}
use receipts_sdk.Prelude.Maps.{Map}
use receipts_sdk.Errors.{Throws}
use receipts_sdk.Types.{ChainState, SignedReceipt, TimestampToken}
use receipts_sdk.Payload.{canonical_signing_payload}
use receipts_sdk.Signing.Ledger.{sign_receipt}
use receipts_sdk.Workflow.Pipelines.{
  Answer, Thrown, with_message, without_message, nullish, own, Run, Setting, then_run, with_result,
  with_token, enter, sign_options, sign_stage, stamp_with, stamp_stage, hand_over, persist_stage,
  notify_stage, run_stages,
}
use receipts_sdk.Workflow.Pipelines.States.{
  signing, signed, timestamping, timestamped, persisting, persisted, persist_skipped, notifying,
  done, failed,
}
use receipts_sdk.Workflow.Pipelines.Phases.{
  Leads, table_runs, Wrote, Phase, unsigned, unasked, asked, by_tsa, by_store, by_notify, IsThrown,
  ClientThrew-IsThrown, IsAt, Stage, then_run-Stage, told, enter-Stage,
}

module _ (w : Setting) where
  pub with_result-Stage :
      (r : Run) (y : Map ChainState × Throws SignedReceipt)
      → IsAt w.opts unsigned signing r
      → Stage w.opts (IsAt w.opts unasked signing) (with_result r y)
  unfolding table_runs
  with_result-Stage r (files, err e) at = (
    record {
      from = signing;
      way = refl;
      phase = unsigned;
      at = record { here = at.here; table = at.table; honest = at.honest; has = tt };
    },
    tt,
  )
  with_result-Stage r (files, ok s) at = record {
    here = at.here;
    table = at.table;
    honest = at.honest;
    has = (s, refl);
  }

  pub with_token-Stage :
      (r : Run) (s : SignedReceipt) (y : Answer TimestampToken)
      → ((v : Thrown) → y ≡ err v → IsThrown w.opts v)
      → IsAt w.opts unasked timestamping r
      → Stage w.opts (IsAt w.opts unasked timestamping) (with_token r s y)
  unfolding table_runs
  with_token-Stage r s (err v) threw at =
      (record { from = timestamping; way = refl; phase = unasked; at = at }, threw v refl)
  with_token-Stage r s (ok token) threw at = record {
    here = at.here;
    table = at.table;
    honest = at.honest;
    has = (_, refl);
  }

  pub sign_stage-Stage :
      (r : Run)
      → IsAt w.opts unsigned signing r
      → Stage w.opts (IsAt w.opts unasked signed) (sign_stage w r)
  unfolding sign_stage table_runs
  sign_stage-Stage r at =
      then_run-Stage w.opts (IsAt w.opts unasked signing) (IsAt w.opts unasked signed) _
        (enter w signed)
        (with_result-Stage r
          (sign_receipt w.platform r.files (sign_options w r) w.receipt_id w.loaded_at w.signed_at
            w.saved_at)
          at)
        (λ r at. enter-Stage w unasked signing signed r at refl (text_ne _ _ refl))

  -- What is thrown while stamping is an error of the program, or thrown by the client.
  stamping_threw :
      (timestamp : Bytes → Answer TimestampToken) (canon : Throws Bytes)
      → w.opts.tsa ≡ some timestamp
      → (v : Thrown) → (own canon >>= λ canon. timestamp canon) ≡ err v
      → IsThrown w.opts v
  stamping_threw timestamp (err e) given (with_message e') h = tt
  stamping_threw timestamp (err e) given without_message h = absurd (cc)
  stamping_threw timestamp (err e) given nullish h = absurd (cc)
  stamping_threw timestamp (ok canon) given v h =
      ClientThrew-IsThrown w.opts v (by_tsa timestamp canon given h)

  pub stamp_with-Stage :
      (timestamp : Bytes → Answer TimestampToken) (r : Run)
      → w.opts.tsa ≡ some timestamp
      → IsAt w.opts unasked timestamping r
      → Stage w.opts (IsAt w.opts unasked timestamping) (stamp_with w timestamp r)
  unfolding stamp_with
  stamp_with-Stage timestamp r given at =
      elim r.receipt
        as (λ o. Stage w.opts (IsAt w.opts unasked timestamping) (elim o [
          | none ↦ (r, ok tt)
          | some s ↦
              with_token r s
                (own (canonical_signing_payload w.platform s.receipt) >>= λ canon. timestamp canon)
        ])) [
          | none ↦ at
          | some s ↦
              with_token-Stage r s _
                (stamping_threw timestamp (canonical_signing_payload w.platform s.receipt) given) at
        ]

  pub stamp_stage-Stage :
      (r : Run)
      → IsAt w.opts unasked signed r
      → Stage w.opts (IsAt w.opts unasked persisting) (stamp_stage w r)
  unfolding stamp_stage table_runs
  stamp_stage-Stage r at =
      elim w.opts.tsa
          as (λ o.
            w.opts.tsa ≡ o
            → Stage w.opts (IsAt w.opts unasked persisting) (elim o [
              | none ↦ enter w persisting r
              | some timestamp ↦
                  then_run
                    (then_run (then_run (enter w timestamping r) (stamp_with w timestamp))
                      (enter w timestamped))
                    (enter w persisting)
            ])) [
              | none ↦ λ given. enter-Stage w unasked signed persisting r at refl (text_ne _ _ refl)
              | some timestamp ↦ λ given.
                  let stamped = then_run (enter w timestamping r) (stamp_with w timestamp) in
                  then_run-Stage w.opts (IsAt w.opts unasked timestamped)
                    (IsAt w.opts unasked persisting) (then_run stamped (enter w timestamped))
                    (enter w persisting)
                    (then_run-Stage w.opts (IsAt w.opts unasked timestamping)
                      (IsAt w.opts unasked timestamped) stamped (enter w timestamped)
                      (then_run-Stage w.opts (IsAt w.opts unasked timestamping)
                        (IsAt w.opts unasked timestamping) (enter w timestamping r)
                        (stamp_with w timestamp)
                        (enter-Stage w unasked signed timestamping r at refl (text_ne _ _ refl))
                        (λ r at. stamp_with-Stage timestamp r given at))
                      (λ r at.
                        enter-Stage w unasked timestamping timestamped r at refl
                          (text_ne _ _ refl)))
                    (λ r at.
                      enter-Stage w unasked timestamped persisting r at refl (text_ne _ _ refl))
            ]
        refl

  -- Where a store was asked, or there is none: two ways on.
  pub record IsStored (r : Run) : Type 0 where
    pub from : Text
    pub to_notifying : Leads from notifying
    pub to_done : Leads from done
    pub at : IsAt w.opts asked from r

  pub handed-Stage :
      (phase : Phase) (from : Text) (r : Run) (u : Answer (Unit {0}))
      → ((v : Thrown) → u ≡ err v → IsThrown w.opts v)
      → IsAt w.opts phase from r
      → Leads from failed
      → Stage w.opts (IsAt w.opts phase from) (r, u)
  handed-Stage phase from r (err v) threw at way =
      (record { from = from; way = way; phase = phase; at = at }, threw v refl)
  handed-Stage phase from r (ok u) threw at way = at

  pub hand_over-Stage :
      (phase : Phase) (from : Text) (f : SignedReceipt → Answer (Unit {0})) (r : Run)
      → ((s : SignedReceipt) (v : Thrown) → f s ≡ err v → IsThrown w.opts v)
      → IsAt w.opts phase from r
      → Leads from failed
      → Stage w.opts (IsAt w.opts phase from) (hand_over w f r)
  unfolding hand_over
  hand_over-Stage phase from f r threw at way =
      elim r.receipt
        as (λ o.
          Stage w.opts (IsAt w.opts phase from)
            (elim o [ none ↦ (r, ok tt) | some s ↦ (r, f s) ])) [
              | none ↦ at
              | some s ↦ handed-Stage phase from r (f s) (threw s) at way
            ]

  pub notify_stage-Stage :
      (r : Run) → IsStored r → Stage w.opts (IsAt w.opts asked done) (notify_stage w r)
  unfolding notify_stage table_runs
  notify_stage-Stage r h =
      elim w.opts.notify
          as (λ o.
            w.opts.notify ≡ o
            → Stage w.opts (IsAt w.opts asked done) (elim o [
              | none ↦ enter w done r
              | some notify ↦
                  then_run (then_run (enter w notifying r) (hand_over w notify)) (enter w done)
            ])) [
              | none ↦
                  λ given. enter-Stage w asked h.from done r h.at h.to_done (inl (text_ne _ _ refl))
              | some notify ↦ λ given.
                  then_run-Stage w.opts (IsAt w.opts asked notifying) (IsAt w.opts asked done)
                    (then_run (enter w notifying r) (hand_over w notify)) (enter w done)
                    (then_run-Stage w.opts (IsAt w.opts asked notifying)
                      (IsAt w.opts asked notifying) (enter w notifying r) (hand_over w notify)
                      (enter-Stage w asked h.from notifying r h.at h.to_notifying
                        (inl (text_ne _ _ refl)))
                      (λ r at.
                        hand_over-Stage asked notifying notify r
                          (λ s v h. ClientThrew-IsThrown w.opts v (by_notify notify s given h)) at
                          refl))
                    (λ r at. enter-Stage w asked notifying done r at refl (inl (text_ne _ _ refl)))
            ]
        refl

  -- What a store answers to the receipt.
  stored :
      (store : SignedReceipt → Answer (Unit {0})) (s : SignedReceipt) (r : Run)
      (u : Answer (Unit {0}))
      → w.opts.store ≡ some store
      → r.receipt ≡ some s
      → store s ≡ u
      → IsAt w.opts unasked persisting r
      → Stage w.opts IsStored (then_run (r, u) (enter w persisted))
  unfolding table_runs
  stored store s r (err v) given has answer at = (
    record { from = persisting; way = refl; phase = unasked; at = at },
    ClientThrew-IsThrown w.opts v (by_store store s given answer),
  )
  stored store s r (ok tt) given has answer at =
      let wrote : Wrote w.opts r.receipt = (store, s, given, has, answer) in
      let told_at : IsAt w.opts asked persisting r = record {
        here = at.here;
        table = at.table;
        honest = told w.opts unasked r.receipt r.sm.history at.honest;
        has = at.has;
      } in
      to_stored (enter w persisted r)
        (enter-Stage w asked persisting persisted r told_at refl (inr wrote))
    where
      to_stored :
          (x : Run × Answer (Unit {0}))
          → Stage w.opts (IsAt w.opts asked persisted) x
          → Stage w.opts IsStored x
      to_stored (r, ok u) at = record {
        from = persisted;
        to_notifying = refl;
        to_done = refl;
        at = at;
      }
      to_stored (r, err e) can = can

  skipped :
      (r : Run)
      → IsAt w.opts unasked persisting r
      → Stage w.opts IsStored (enter w persist_skipped r)
  unfolding table_runs
  skipped r at =
      to_stored (enter w persist_skipped r)
        (enter-Stage w unasked persisting persist_skipped r at refl (text_ne _ _ refl))
    where
      to_stored :
          (x : Run × Answer (Unit {0}))
          → Stage w.opts (IsAt w.opts unasked persist_skipped) x
          → Stage w.opts IsStored x
      to_stored (r, ok u) at = record {
        from = persist_skipped;
        to_notifying = refl;
        to_done = refl;
        at = record {
          here = at.here;
          table = at.table;
          honest = told w.opts unasked r.receipt r.sm.history at.honest;
          has = at.has;
        };
      }
      to_stored (r, err e) can = can

  handed :
      (store : SignedReceipt → Answer (Unit {0})) (s : SignedReceipt) (r : Run)
      → r.receipt ≡ some s
      → hand_over w store r ≡ (r, store s)
  unfolding hand_over
  handed store s r has = rw has refl

  pub persist_stage-Stage :
      (r : Run) → IsAt w.opts unasked persisting r → Stage w.opts IsStored (persist_stage w r)
  unfolding persist_stage
  persist_stage-Stage r at = with_store w.opts.store refl
    where
      with_store :
          (o : Option (SignedReceipt → Answer (Unit {0})))
          → w.opts.store ≡ o
          → Stage w.opts IsStored (elim o [
            | none ↦ enter w persist_skipped r
            | some store ↦ then_run (hand_over w store r) (enter w persisted)
          ])
      with_store none given = skipped r at
      with_store (some store) given =
          let (s, has) = at.has in
          subst (λ x. Stage w.opts IsStored (then_run x (enter w persisted)))
            (sym (handed store s r has)) (stored store s r (store s) given has refl at)

  pub run_stages-Stage :
      (r : Run)
      → IsAt w.opts unsigned signing r
      → Stage w.opts (IsAt w.opts asked done) (run_stages w r)
  unfolding run_stages
  run_stages-Stage r at =
      let persist = then_run (then_run (sign_stage w r) (stamp_stage w)) (persist_stage w) in
      then_run-Stage w.opts IsStored (IsAt w.opts asked done) persist (notify_stage w)
        (then_run-Stage w.opts (IsAt w.opts unasked persisting) IsStored
          (then_run (sign_stage w r) (stamp_stage w)) (persist_stage w)
          (then_run-Stage w.opts (IsAt w.opts unasked signed) (IsAt w.opts unasked persisting)
            (sign_stage w r) (stamp_stage w) (sign_stage-Stage r at) stamp_stage-Stage)
          persist_stage-Stage)
        notify_stage-Stage
