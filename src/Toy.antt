-- ===== src/Toy.antt =====
-- A small platform that meets the assumptions on the libraries, and receipts to test with.
use receipts_sdk.Prelude.{
  ℕ, zero, suc, ◌+◌, ◌%◌, refl, true, false, some, none, [], ◌∷◌, ◌++◌, Bytes, Text, codes, text_eq,
  arith,
}
use receipts_sdk.Prelude.Hex.{AreBytes}
use receipts_sdk.Types.{
  Number, nat, neg, other, Json, undefined, null, bool, num, str, arr, obj, Items, nil, cons,
  Fields, end, field, RawEvent, Receipt, SignedReceipt, KeyPair,
}
use receipts_sdk.Crypto.{Platform, DigestLaws}

abbrev pub sum : Bytes → ℕ
sum [] = 0
sum (b ∷ bs) = b + sum bs

abbrev pub zeros : ℕ → Bytes
zeros zero = []
zeros (suc n) = 0 ∷ zeros n

pub zeros-AreBytes : (n : ℕ) → AreBytes (zeros n)
zeros-AreBytes zero = tt
zeros-AreBytes (suc n) = (omega arith, zeros-AreBytes n)

abbrev pub toy_digest : Bytes → Bytes
toy_digest b = (sum b % 256) ∷ zeros 31

abbrev number_text : Number → Text
number_text (nat n) = n ∷ []
number_text (neg n) = 45 ∷ n ∷ []
number_text (other t) = t

unfoldable mutual
  pub render : Json → Text
  render undefined = []
  render null = 110 ∷ []
  render (bool true) = 116 ∷ []
  render (bool false) = 102 ∷ []
  render (num n) = number_text n
  render (str t) = t
  render (arr xs) = render_items xs
  render (obj fs) = render_fields fs

  pub render_items : Items → Text
  render_items nil = []
  render_items (cons v vs) = render v ++ render_items vs

  pub render_fields : Fields → Text
  render_fields end = []
  render_fields (field k v fs) = k ++ render v ++ render_fields fs

unfoldable pub toy : Platform
unfolding render render_items render_fields
toy = record {
  digest = toy_digest;
  ed_sign = λ payload key. toy_digest payload ++ key;
  ed_verify = λ signature payload key. some (text_eq signature (toy_digest payload ++ key));
  ed_public = λ key. key;
  jcs = λ v. some (some (render v));
  sum_with_one = λ t. none;
  utf8 = λ t. t;
  from_base64 = λ t. t;
  to_base64 = λ b. b;
  local_imprint = λ t. some t;
}

pub toy_laws : DigestLaws toy
unfolding toy
toy_laws = record {
  is_digest = λ b. record { size = refl; bytes = (omega arith, zeros-AreBytes 31) };
}

abbrev pub keys : KeyPair
keys = record {
  kid = codes "k1";
  public_key = 7 ∷ zeros 31;
  private_key = 7 ∷ zeros 31;
  created_at = codes "2026-01-01T00:00:00Z";
}

abbrev pub event : RawEvent
event = record {
  schema_version = codes "1.0";
  tenant_id = codes "acme";
  event_type = codes "ide.completion";
  source_system = codes "ide";
  event_id = codes "e1";
  captured_at = codes "2026-01-01T00:00:00Z";
  context = none;
  subject = none;
  payload = none;
  lineage = none;
}

-- A receipt with an id, a height and a predecessor.
abbrev pub receipt : Text → ℕ → Text → Text → Receipt
receipt id height prev hash = record {
  schema_version = codes "1.0";
  receipt_id = id;
  tenant_id = codes "acme";
  issued_at = codes "2026-01-01T00:00:00Z";
  event = event;
  decision = none;
  decision_summary = none;
  policy_context = none;
  verification = none;
  provenance = none;
  evidence_refs = none;
  extensions = none;
  integrity = record {
    previous_receipt_hash = prev;
    receipt_hash = hash;
    chain_height = nat height;
    merkle_period = none;
  };
}

abbrev pub unsigned : Receipt → SignedReceipt
unsigned r = record { receipt = r; signatures = []; timestamps = none }
