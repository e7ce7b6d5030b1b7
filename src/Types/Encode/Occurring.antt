-- ===== src/Types/Encode/Occurring.antt =====
-- Where a number stands in the JavaScript object that a receipt is.
use receipts_sdk.Prelude.{ℕ, Option, none, some, String, Text, ◌≡◌}
use receipts_sdk.Types.Encode.{
  req, opt, list_of, integrity, decision, summary, policy, verification, provenance, evidence,
  receipt_json,
}
use receipts_sdk.Types.{Json, obj, num, nat, Fields, field, Receipt, IntegrityBlock}

-- The number is the value itself or stands in one of its fields, however deep.
pub data Occurs (n : ℕ) : Json → Type 0 where
  itself : Occurs n (num (nat n))
  here : {k : Text} {v : Json} {fs : Fields} → Occurs n v → Occurs n (obj (field k v fs))
  later : {k : Text} {v : Json} {fs : Fields} → Occurs n (obj fs) → Occurs n (obj (field k v fs))

module _ {A : Type 0} {n : ℕ} where
  Occurs-opt :
      (k : String) (f : A → Json) (v : Option A) (rest : Fields)
      → Occurs n (obj rest)
      → Occurs n (obj (opt k f v rest))
  unfolding opt
  Occurs-opt k f none rest o = o
  Occurs-opt k f (some v) rest o = later o

Occurs-integrity : {n : ℕ} (i : IntegrityBlock) → i.chain_height ≡ nat n → Occurs n (integrity i)
unfolding integrity req
Occurs-integrity {n} i e = later (later (here (rw e itself)))

pub Occurs-receipt_json :
    {n : ℕ} (r : Receipt) → r.integrity.chain_height ≡ nat n → Occurs n (receipt_json r)
unfolding receipt_json
Occurs-receipt_json {n} r e =
    (later (
      later (
        later (
          later (
            later (
              Occurs-opt "decision" decision r.decision _ (
                Occurs-opt "decision_summary" summary r.decision_summary _ (
                  Occurs-opt "policy_context" policy r.policy_context _ (
                    Occurs-opt "verification" verification r.verification _ (
                      Occurs-opt "provenance" provenance r.provenance _ (
                        Occurs-opt "evidence_refs" (list_of evidence) r.evidence_refs _ (
                          Occurs-opt "extensions" obj r.extensions _
                            (here (Occurs-integrity r.integrity e))))))))))))))
