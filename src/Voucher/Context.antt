-- ===== src/Voucher/Context.antt =====
-- `VoucherContext` and its validation. A numeric field may hold any value; `Limits` has the numbers
-- that a valid context holds.
use foundry_pay.Base.{
  ℕ, ◌-◌, not, ◌||◌, [], ◌∷◌, ltb, ◌==◌, bool_ne, lit, String, Text, text_eq, if◌then◌else◌, Result,
  ok, err, reject, ◌>>=◌, ◌>>◌, reject_if,
}
use foundry_pay.Python.Value.{Value, Fields, pos, int, end, field}
use foundry_pay.Python.Pattern.{is_hash, is_identifier}
use foundry_pay.Python.Datetime.{Datetime}
use foundry_pay.Canonical.Json.{json_safe_max}
use foundry_pay.Channel.Checks.{u64_max}
use foundry_pay.Voucher.Checks.{string, utc, differs}
use foundry_pay.Voucher.Payload.{pubkeys}

pub record VoucherContext : Type 0 where
  pub environment : Value
  pub network : Value
  pub genesis_hash : Value
  pub program_id : Value
  pub channel_id : Value
  pub channel_account : Value
  pub epoch : Value
  pub sender : Value
  pub recipient_claim_pubkey : Value
  pub mint : Value
  pub funded_total_base_units : Value
  pub refunded_total_base_units : Value
  pub policy_limit_base_units : Value
  pub channel_expires_at : Datetime
  pub latest_activated_sequence : Value
  pub latest_activated_total_base_units : Value
  pub latest_activated_voucher_hash : Value

pub record Limits : Type 0 where
  pub funded : ℕ
  pub refunded : ℕ
  pub policy_limit : ℕ
  pub activated_sequence : ℕ
  pub activated_total : ℕ

-- The fields that `validate` reads by name.
unfoldable pub key_fields : VoucherContext → Fields
key_fields x = field (lit "genesis_hash") x.genesis_hash (
    field (lit "program_id") x.program_id (
      field (lit "channel_account") x.channel_account (
        field (lit "sender") x.sender (
          field (lit "recipient_claim_pubkey") x.recipient_claim_pubkey
            (field (lit "mint") x.mint end)))))

-- `type(value) is not int or not 0 <= value <= maximum`
unfoldable pub bounded : Value → ℕ → String → String → Result ℕ
bounded (int (pos n)) maximum code name = do reject_if (ltb maximum n) code name; ok n
bounded v maximum code name = err (reject code name)

unfoldable pub check_limits : Limits → Result (Unit {0})
check_limits l = do
  reject_if (ltb l.funded l.refunded) "invalid_context_accounting"
      "context.refunded_total_base_units"
  reject_if (ltb (l.funded - l.refunded) l.activated_total) "invalid_context_accounting"
      "context.latest_activated_total"
  reject_if (ltb l.policy_limit l.activated_total) "invalid_context_accounting"
      "context.policy_limit"
  reject_if (bool_ne (l.activated_sequence == 0) (l.activated_total == 0))
      "invalid_context_accounting" "context.latest_activated_sequence"

-- `_ZERO_HASH`
unfoldable pub zero_hash : Text
zero_hash = lit "sha256:0000000000000000000000000000000000000000000000000000000000000000"

-- The hash of the latest activated voucher is the zero hash exactly when there is none.
unfoldable pub check_latest_hash : ℕ → Text → Result (Unit {0})
check_latest_hash sequence latest =
    if sequence == 0
    then reject_if (not (text_eq latest zero_hash)) "invalid_context_accounting"
        "context.latest_activated_voucher_hash"
    else reject_if (text_eq latest zero_hash) "invalid_context_accounting"
        "context.latest_activated_voucher_hash"

-- `VoucherContext.validate`
unfoldable pub validate_context : VoucherContext → Result Limits
validate_context x = do
  reject_if (differs x.environment (lit "devnet") || differs x.network (lit "solana:devnet"))
      "invalid_context_domain" "context.network"
  pubkeys "context."
      ("genesis_hash" ∷ "program_id" ∷ "channel_account" ∷ "sender" ∷ "recipient_claim_pubkey"
        ∷ "mint" ∷ [])
      (key_fields x)
  string x.channel_id "context.channel_id" is_identifier
  funded ←
      bounded x.funded_total_base_units u64_max "invalid_context_amount"
        "context.funded_total_base_units"
  refunded ←
      bounded x.refunded_total_base_units u64_max "invalid_context_amount"
        "context.refunded_total_base_units"
  limit ←
      bounded x.policy_limit_base_units u64_max "invalid_context_amount"
        "context.policy_limit_base_units"
  total ←
      bounded x.latest_activated_total_base_units u64_max "invalid_context_amount"
        "context.latest_activated_total_base_units"
  bounded x.epoch json_safe_max "invalid_context_integer" "context.epoch"
  sequence ←
      bounded x.latest_activated_sequence json_safe_max "invalid_context_integer"
        "context.latest_activated_sequence"
  let l : Limits = record {
    funded = funded;
    refunded = refunded;
    policy_limit = limit;
    activated_sequence = sequence;
    activated_total = total;
  }
  check_limits l
  latest ← string x.latest_activated_voucher_hash "context.latest_activated_voucher_hash" is_hash
  check_latest_hash sequence latest
  utc x.channel_expires_at "context.channel_expires_at"
  ok l
