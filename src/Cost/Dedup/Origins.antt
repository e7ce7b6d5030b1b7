-- ===== src/Cost/Dedup/Origins.antt =====
-- Where a served answer comes from.
use receipts_sdk.Prelude.{◌≡◌, [], codes, Text, ok, or_else}
use receipts_sdk.Types.{str, obj, field, end}
use receipts_sdk.Types.Encode.{list_of}
use receipts_sdk.Crypto.{Platform, canonicalize}
use receipts_sdk.Cost.Dedup.{PromptKey, number_or_null}

-- The text is the canonical JSON of the prompt, the model, the tools, which are none where they are
-- absent, and the temperature, which is null where it is absent.
abbrev pub IsText : Platform → PromptKey → Text → Type 0
IsText p k c =
    canonicalize p (
      obj (
        field (codes "p") (str k.prompt) (
          field (codes "m") (str k.model) (
            field (codes "t") (list_of str (or_else k.tools []))
              (field (codes "temp") (number_or_null k.temperature) end)))))
    ≡ ok c
