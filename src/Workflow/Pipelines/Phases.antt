-- ===== src/Workflow/Pipelines/Phases.antt =====
-- Where a run of the pipeline stands: its state, its table, and what its history says of the store.
use mathlib.Core.Path.{subst}
use receipts_sdk.Prelude.{
  ◌≡◌, ◌≢◌, refl, sym, ◌⊎◌, inl, Option, none, some, List, [], Bytes, Text, text_eq, text_ne, All,
  All-append, All-mono, ok, err,
}
use receipts_sdk.Prelude.Maps.{get, put}
use receipts_sdk.Types.{Fields, RawEvent, SignedReceipt, TimestampToken}
use receipts_sdk.Workflow.{
  StateChangeRecord, StateMachine, Request, table_of, moved_to, permit, apply_transition, key_of,
}
use receipts_sdk.Workflow.Pipelines.{
  Answer, Thrown, with_message, without_message, nullish, PolicyAnswer, PipelineOptions, Fault, Run,
  Setting, then_run, enter_with, enter, enter_failed,
}
use receipts_sdk.Workflow.Pipelines.States.{arrow, persisted, failed, transitions}

-- The table holds a way from one state to another.
abbrev pub Leads : Text → Text → Type 0
Leads from to = get (table_of transitions []) (key_of from to) ≡ some (arrow from to)

unfoldable pub table_runs : Unit {0}
unfolding table_of get put text_eq
table_runs = tt

-- The store that was given took the receipt of the run.
abbrev pub Wrote : PipelineOptions → Option SignedReceipt → Type 0
Wrote opts receipt =
    (store : SignedReceipt → Answer (Unit {0})) × (s : SignedReceipt) × (opts.store ≡ some store)
    × (receipt ≡ some s)
    × (store s ≡ ok tt)

-- Before there is a receipt, before a store is asked, and after.
pub data Phase : Type 0 where
  unsigned unasked asked : Phase

-- A change to a state is not to "persisted", or the store wrote, if it was asked.
abbrev pub IsTrue : PipelineOptions → Phase → Option SignedReceipt → Text → Type 0
IsTrue opts asked receipt to = (to ≢ persisted) ⊎ Wrote opts receipt
IsTrue opts _ receipt to = to ≢ persisted

abbrev pub HasReceipt : Phase → Option SignedReceipt → Type 0
HasReceipt unsigned receipt = Unit
HasReceipt _ receipt = (s : SignedReceipt) × (receipt ≡ some s)

abbrev pub IsHonest :
    PipelineOptions → Phase → Option SignedReceipt → List StateChangeRecord → Type 0
IsHonest opts phase receipt history = All (λ c. IsTrue opts phase receipt c.to) history

module _ (opts : PipelineOptions) where
  pub record IsAt (phase : Phase) (state : Text) (r : Run) : Type 0 where
    pub here : r.sm.state ≡ state
    pub table : r.sm.transitions ≡ table_of transitions []
    pub honest : IsHonest opts phase r.receipt r.sm.history
    pub has : HasReceipt phase r.receipt

  -- A state from which the machine can fail.
  pub record CanFail (r : Run) : Type 0 where
    pub from : Text
    pub way : Leads from failed
    pub phase : Phase
    pub at : IsAt phase from r

  -- A client of the options threw the value.
  pub data ClientThrew (v : Thrown) : Type 0 where
    by_policy :
        (path : Text) (decide : RawEvent → Answer PolicyAnswer) (event : RawEvent)
        → opts.policy ≡ some (path, decide)
        → decide event ≡ err v
        → ClientThrew v
    by_tsa :
        (timestamp : Bytes → Answer TimestampToken) (bytes : Bytes)
        → opts.tsa ≡ some timestamp
        → timestamp bytes ≡ err v
        → ClientThrew v
    by_store :
        (store : SignedReceipt → Answer (Unit {0})) (s : SignedReceipt)
        → opts.store ≡ some store
        → store s ≡ err v
        → ClientThrew v
    by_notify :
        (notify : SignedReceipt → Answer (Unit {0})) (s : SignedReceipt)
        → opts.notify ≡ some notify
        → notify s ≡ err v
        → ClientThrew v

  -- What is no error was thrown by a client.
  abbrev pub IsThrown : Thrown → Type 0
  IsThrown (with_message e) = Unit
  IsThrown without_message = ClientThrew without_message
  IsThrown nullish = ClientThrew nullish

  pub ClientThrew-IsThrown : (v : Thrown) → ClientThrew v → IsThrown v
  ClientThrew-IsThrown (with_message e) threw = tt
  ClientThrew-IsThrown without_message threw = threw
  ClientThrew-IsThrown nullish threw = threw

  -- A stage ends where it should, or where the machine can fail.
  abbrev pub Stage : (Run → Type 0) → Run × Answer (Unit {0}) → Type 0
  Stage P (r, ok u) = P r
  Stage P (r, err v) = CanFail r × IsThrown v

  pub then_run-Stage :
      (P Q : Run → Type 0) (x : Run × Answer (Unit {0})) (next : Run → Run × Answer (Unit {0}))
      → Stage P x
      → ((r : Run) → P r → Stage Q (next r))
      → Stage Q (then_run x next)
  then_run-Stage P Q (r, ok u) next h k = k r h
  then_run-Stage P Q (r, err e) next h k = h

  -- In every phase, the history is honest.
  pub told :
      (phase : Phase) (receipt : Option SignedReceipt) (history : List StateChangeRecord)
      → IsHonest opts phase receipt history
      → IsHonest opts asked receipt history
  told asked receipt history h = h
  told unsigned receipt history h =
      All-mono (λ c. IsTrue opts unsigned receipt c.to) (λ c. IsTrue opts asked receipt c.to)
        (λ c e. inl e) history h
  told unasked receipt history h =
      All-mono (λ c. IsTrue opts unasked receipt c.to) (λ c. IsTrue opts asked receipt c.to)
        (λ c e. inl e) history h

pub permit-arrow :
    (m : StateMachine (Unit {0})) (q : Request (Unit {0})) (from : Text)
    → get m.transitions (key_of m.state q.to) ≡ some (arrow from q.to)
    → permit m q ≡ ok tt
unfolding permit
permit-arrow m q from way = rw way refl

module _ (w : Setting) where
  -- The change that entering a state records.
  abbrev pub request_to : Text → Option Fields → Request (Unit {0})
  request_to to metadata = record {
    to = to;
    actor = none;
    metadata = metadata;
    context = tt;
    now = w.clock to;
  }

  pub enter_with-eq :
      (from to : Text) (metadata : Option Fields) (r : Run)
      → get r.sm.transitions (key_of r.sm.state to) ≡ some (arrow from to)
      → enter_with w to metadata r
        ≡ (record r { sm = moved_to r.sm (request_to to metadata) }, ok tt)
  unfolding enter_with apply_transition
  enter_with-eq from to metadata r way =
      rw (permit-arrow r.sm (request_to to metadata) from way) refl

  -- A change that the table holds, of an honest run.
  pub enter_with-Stage :
      (phase : Phase) (from to : Text) (metadata : Option Fields) (r : Run)
      → IsAt w.opts phase from r
      → Leads from to
      → IsTrue w.opts phase r.receipt to
      → Stage w.opts (IsAt w.opts phase to) (enter_with w to metadata r)
  enter_with-Stage phase from to metadata r at way true_to =
      let there : get r.sm.transitions (key_of r.sm.state to) ≡ some (arrow from to) =
        rw (at.here, at.table) way in
      subst (Stage w.opts (IsAt w.opts phase to)) (sym (enter_with-eq from to metadata r there))
        (record {
          here = refl;
          table = at.table;
          honest =
              All-append (λ c. IsTrue w.opts phase r.receipt c.to) r.sm.history _ at.honest
                (true_to, tt);
          has = at.has;
        })

  pub enter-Stage :
      (phase : Phase) (from to : Text) (r : Run)
      → IsAt w.opts phase from r
      → Leads from to
      → IsTrue w.opts phase r.receipt to
      → Stage w.opts (IsAt w.opts phase to) (enter w to r)
  unfolding enter
  enter-Stage phase from to r at way true_to = enter_with-Stage phase from to none r at way true_to

  -- The transition to "failed" of a run that can fail.
  pub failing :
      (fault : Option Fault) (r : Run)
      → CanFail w.opts r
      → ((enter_failed w fault r).0.sm.state ≡ failed)
        × IsHonest w.opts asked
            (enter_failed w fault r).0.receipt
            (enter_failed w fault r).0.sm.history
        × ((enter_failed w fault r).1 ≡ ok tt)
  unfolding enter_failed text_eq
  failing fault r can =
      let at = can.at in
      let there : get r.sm.transitions (key_of r.sm.state failed) ≡ some (arrow can.from failed) =
        rw (at.here, at.table) can.way in
      let step = enter_with-eq can.from failed _ r there in
      subst
        (λ x.
          (x.0.sm.state ≡ failed)
          × IsHonest w.opts asked x.0.receipt x.0.sm.history
          × (x.1 ≡ ok tt))
        (sym step)
        (
          refl,
          All-append (λ c. IsTrue w.opts asked r.receipt c.to) r.sm.history _
              (told w.opts can.phase r.receipt r.sm.history at.honest)
              (inl (text_ne failed persisted refl), tt),
          refl,
        )
