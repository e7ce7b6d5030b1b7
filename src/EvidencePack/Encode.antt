-- ===== src/EvidencePack/Encode.antt =====
-- An evidence pack without its integrity block, as the JavaScript object that is hashed.
use receipts_sdk.Prelude.{[], ◌∷◌, String, codes}
use receipts_sdk.Prelude.Maps.{Map}
use receipts_sdk.Types.{
  Json, num, nat, str, obj, Fields, end, field, Signature, TimestampToken, SignedReceipt,
}
use receipts_sdk.Types.Encode.{list_of, req, opt, receipt_json}
use receipts_sdk.Merkle.{InclusionProof, MerkleBatch}
use receipts_sdk.Keys.{KeyStatus, active, retired, revoked, KeyRecord}
use receipts_sdk.EvidencePack.Shapes.{EvidencePackMeta, Contents}

status : KeyStatus → Json
status active = str (codes "active")
status retired = str (codes "retired")
status revoked = str (codes "revoked")

text : String → Json
text s = str (codes s)

key : KeyRecord → Json
key k = obj (
    req "kid" str k.kid (
      req "public_key" str k.public_key (
        req "algorithm" text "EdDSA" (
          req "curve" text "ed25519" (
            req "status" status k.status (
              req "issued_at" str k.issued_at (
                opt "retired_at" str k.retired_at (
                  opt "revoked_at" str k.revoked_at
                    (opt "revocation_reason" str k.revocation_reason end)))))))))

proof : InclusionProof → Json
proof i = obj (
    req "leaf_index" num i.leaf_index
      (req "tree_size" num i.tree_size (req "audit_path" (list_of str) i.audit_path end)))

proofs : Map InclusionProof → Fields
proofs [] = end
proofs ((id, i) ∷ more) = field id (proof i) (proofs more)

batch : MerkleBatch → Json
batch b = obj (
    req "root" str b.root
      (req "tree_size" num (nat b.tree_size) (field (codes "proofs") (obj (proofs b.proofs)) end)))

signature : Signature → Json
signature s = obj (req "alg" str s.alg (req "kid" str s.kid (req "sig" str s.sig end)))

token : TimestampToken → Json
token t = obj (req "tsa" str t.tsa (req "timestamp_token" str t.timestamp_token end))

signed : SignedReceipt → Json
signed r = obj (
    req "receipt" receipt_json r.receipt (
      req "signatures" (list_of signature) r.signatures
        (opt "timestamps" (list_of token) r.timestamps end)))

about : EvidencePackMeta → Json
about m = obj (
    req "title" str m.title (
      req "tenantId" str m.tenant_id (
        req "purpose" str m.purpose (
          field (codes "period") (obj (req "from" str m.period_from (req "to" str m.period_to end)))
            (req "builtBy" str m.built_by (req "builtAt" str m.built_at end))))))

-- The fields that `corePack` and `stripped` list.
unfoldable pub contents_json : Contents → Json
unfolding list_of req opt status text key proof proofs batch signature token signed about
    receipt_json
contents_json c = obj (
    req "@context" str c.context (
      req "@type" str c.kind (
        req "meta" about c.meta (
          req "trusted_keys" (list_of key) c.trusted_keys (
            req "merkle" batch c.merkle (
              req "receipts" (list_of signed) c.receipts
                (req "verification_instructions" str c.verification_instructions end)))))))
