-- ===== src/Binding/Context.antt =====
-- `RecipientBindingContext`, its validation and its domain hash.
use foundry_pay.Base.{
  ℕ, List, [], ◌∷◌, lit, String, Text, Result, ok, err, reject, canonical, ◌>>=◌, ◌>>◌,
}
use foundry_pay.Python.Value.{Value, str, obj, end, field}
use foundry_pay.Canonical.Json.{Host, canonical_json_bytes, sha256_raw_bytes}
use foundry_pay.Binding.Checks.{literal, identifier, pubkey, hash, integer}

pub record RecipientBindingContext : Type 0 where
  pub environment : Value
  pub network : Value
  pub genesis_hash : Value
  pub program_id : Value
  pub channel_id : Value
  pub channel_account : Value
  pub epoch : Value
  pub claim_id : Value
  pub claim_pubkey : Value
  pub voucher_hash : Value
  pub mint : Value

unfoldable pub validate_binding_context : RecipientBindingContext → Result (Unit {0})
validate_binding_context x = do
  literal x.environment "devnet" "context.environment"
  literal x.network "solana:devnet" "context.network"
  pubkey x.genesis_hash "context.genesis_hash"
  pubkey x.program_id "context.program_id"
  identifier x.channel_id "context.channel_id"
  pubkey x.channel_account "context.channel_account"
  integer x.epoch "context.epoch" 0
  identifier x.claim_id "context.claim_id"
  pubkey x.claim_pubkey "context.claim_pubkey"
  hash x.voucher_hash "context.voucher_hash"
  pubkey x.mint "context.mint"
  ok tt

unfoldable pub binding_domain : RecipientBindingContext → Value
binding_domain x = obj (
    field (lit "domain") (str (lit "foundry.channels.recipient-binding-journal")) (
      field (lit "protocol_version") (str (lit "1.0.0")) (
        field (lit "environment") x.environment (
          field (lit "network") x.network (
            field (lit "genesis_hash") x.genesis_hash (
              field (lit "program_id") x.program_id (
                field (lit "channel_id") x.channel_id (
                  field (lit "channel_account") x.channel_account (
                    field (lit "epoch") x.epoch (
                      field (lit "claim_id") x.claim_id (
                        field (lit "claim_pubkey") x.claim_pubkey (
                          field (lit "voucher_hash") x.voucher_hash
                            (field (lit "mint") x.mint end)))))))))))))

-- `except CanonicalizationError`, with the field of the rejection
abbrev pub canonical_or : String → Result (List ℕ) → Result (List ℕ)
canonical_or name (err (canonical code stage)) = err (reject "canonicalization_failed" name)
canonical_or name r = r

unfoldable pub recipient_binding_domain_hash : Host → RecipientBindingContext → Result Text
recipient_binding_domain_hash h x = do
  validate_binding_context x
  bytes ← canonical_or "context" (canonical_json_bytes h (binding_domain x))
  ok (sha256_raw_bytes h bytes)

-- The attributes that a claim has to match.
unfoldable pub claim_attributes : RecipientBindingContext → List (String × Value)
claim_attributes x =
    ("claim_id", x.claim_id)
    ∷ ("channel_id", x.channel_id)
    ∷ ("channel_account", x.channel_account)
    ∷ ("epoch", x.epoch)
    ∷ ("claim_pubkey", x.claim_pubkey)
    ∷ ("voucher_hash", x.voucher_hash)
    ∷ []

-- The attributes that a binding's payload has to match.
unfoldable pub payload_attributes : RecipientBindingContext → List (String × Value)
payload_attributes x =
    ("environment", x.environment)
    ∷ ("network", x.network)
    ∷ ("genesis_hash", x.genesis_hash)
    ∷ ("program_id", x.program_id)
    ∷ ("channel_id", x.channel_id)
    ∷ ("channel_account", x.channel_account)
    ∷ ("epoch", x.epoch)
    ∷ ("claim_id", x.claim_id)
    ∷ ("claim_pubkey", x.claim_pubkey)
    ∷ ("voucher_hash", x.voucher_hash)
    ∷ ("mint", x.mint)
    ∷ []
