-- ===== src/Channel/Funding/Effect.antt =====
-- What an accepted funding transition does to a channel.
use foundry_pay.Base.{
  ℕ, ◌+◌, ◌<◌, ◌≡◌, true, arith, lit, String, List, [], ◌∷◌, ok, All, sym, ◌∙◌, ◌⊎◌, subst, subst⁻¹,
}
use foundry_pay.Python.Value.{Value, Fields, get, at, option_eq}
use foundry_pay.Channel.Checks.{closed_object, amount}
use foundry_pay.Channel.Accounts.{Projection}
use foundry_pay.Channel.Accounts.Laws.{Conserves}
use foundry_pay.Channel.Conservation.{validate_channel-States, validate_channel-Conserves}
use foundry_pay.Channel.Reads.{amount-unchanged}
use foundry_pay.Channel.Snapshot.{validate_channel, fields_of, is_text}
use foundry_pay.Channel.Funding.{
  funding_fields, immutable_fields, expected_after_status, check_event, unchanged,
  validate_funding_transition,
}

abbrev Same : Fields → Fields → String → Type 0
Same m n f = option_eq (get (lit f) m) (get (lit f) n) ≡ true

unchanged-All : (fs : List String) (m n : Fields) → unchanged fs m n ≡ ok tt → All (Same m n) fs
unfolding unchanged
unchanged-All [] m n h = tt
unchanged-All (f ∷ fs) m n h = ground (arith, unchanged-All fs m n)

-- The steps that an accepted transition has passed.
record Passes (previous funding after : Value) (q : Projection) : Type 0 where
  before : Projection
  expected : String
  event : Fields
  sums : ℕ × ℕ
  opened : validate_channel previous ≡ ok before
  allowed : expected_after_status (fields_of previous) ≡ ok expected
  formed : closed_object funding "funding" funding_fields funding_fields ≡ ok event
  priced : check_event event before.funded_total ≡ ok sums
  ended : validate_channel after ≡ ok q
  status : is_text (at (lit "status") (fields_of after)) (lit expected) ≡ true
  kept : unchanged immutable_fields (fields_of previous) (fields_of after) ≡ ok tt
  totalled : sums.1 ≡ q.funded_total

transition-Passes :
    (v f w : Value) (q : Projection) → validate_funding_transition v f w ≡ ok q → Passes v f w q
unfolding validate_funding_transition
transition-Passes v f w q h = ground arith

check_event-total :
    (e : Fields) (n : ℕ) (sums : ℕ × ℕ)
    → check_event e n ≡ ok sums
    → (amount (at (lit "amount_base_units") e) "funding.amount_base_units" ≡ ok sums.0)
      × (0 < sums.0)
      × (sums.1 ≡ n + sums.0)
unfolding check_event
check_event-total e n sums h = ground arith

allowed_states : (c : Fields) (s : String) → expected_after_status c ≡ ok s → s ≡ "active"
unfolding expected_after_status
allowed_states c s h = ground arith

allowed_from :
    (c : Fields) (s : String)
    → expected_after_status c ≡ ok s
    → (is_text (at (lit "status") c) (lit "funding") ≡ true)
      ⊎ (is_text (at (lit "status") c) (lit "active") ≡ true)
unfolding expected_after_status
allowed_from c s h = ground arith

event_fields :
    (f : Value) (e : Fields)
    → closed_object f "funding" funding_fields funding_fields ≡ ok e
    → fields_of f ≡ e
unfolding closed_object
event_fields f e h = ground arith

-- What a funding of `n` base units does to the derived amounts.
pub record Credits (n : ℕ) (before after : Projection) : Type 0 where
  pub funded : after.funded_total ≡ before.funded_total + n
  pub activated : after.activated_total ≡ before.activated_total
  pub settled : after.settled_total ≡ before.settled_total
  pub refunded : after.refunded_total ≡ before.refunded_total
  pub vault : after.vault_balance ≡ before.vault_balance + n
  pub right : after.outstanding_right ≡ before.outstanding_right
  pub capacity : after.unallocated_capacity ≡ before.unallocated_capacity + n

credits :
    (n : ℕ) (p q : Projection)
    → Conserves p
    → Conserves q
    → q.funded_total ≡ p.funded_total + n
    → q.activated_total ≡ p.activated_total
    → q.settled_total ≡ p.settled_total
    → q.refunded_total ≡ p.refunded_total
    → Credits n p q
credits n p q c d f a s r = omega arith

ok-injective : {m n : ℕ} → ok m ≡ ok n → m ≡ n
ok-injective h = cc

-- An accepted funding transition starts from an accepted snapshot in the state `funding` or `active`
-- and ends in an accepted one in the state `active`; the event's amount is positive, and exactly that
-- amount is added to the funded total, the vault and the unallocated capacity, while the activated,
-- settled and refunded totals and the outstanding right stay as they were.
pub funding-Credits :
    (v f w : Value) (q : Projection)
    → validate_funding_transition v f w ≡ ok q
    → (p : Projection) × (n : ℕ) × (validate_channel v ≡ ok p)
      × (validate_channel w ≡ ok q)
      × (amount (at (lit "amount_base_units") (fields_of f)) "funding.amount_base_units" ≡ ok n)
      × (0 < n)
      × Credits n p q
      × ((is_text (at (lit "status") (fields_of v)) (lit "funding") ≡ true)
          ⊎ (is_text (at (lit "status") (fields_of v)) (lit "active") ≡ true))
      × (is_text (at (lit "status") (fields_of w)) (lit "active") ≡ true)
funding-Credits v f w q h =
    let r = transition-Passes v f w q h in
    let s = validate_channel-States v r.before r.opened in
    let t = validate_channel-States w q r.ended in
    let e = check_event-total r.event r.before.funded_total r.sums r.priced in
    let k = unchanged-All immutable_fields (fields_of v) (fields_of w) r.kept in
    let kept = k.1.1.1.1.1.1.1.1.1.1.1.1.1 in
    (
      r.before,
      r.sums.0,
      r.opened,
      r.ended,
      subst⁻¹
          (λ m. amount (at (lit "amount_base_units") m) "funding.amount_base_units" ≡ ok r.sums.0)
          (event_fields f r.event r.formed) e.0,
      e.1,
      credits r.sums.0 r.before q (validate_channel-Conserves v r.before r.opened)
          (validate_channel-Conserves w q r.ended) (sym r.totalled ∙ e.2)
          (ok-injective (
            sym t.activated
            ∙ amount-unchanged (lit "activated_authorized_total_base_units") _ _ (fields_of v)
                (fields_of w) kept.0 s.activated))
          (ok-injective (
            sym t.settled
            ∙ amount-unchanged (lit "settled_total_base_units") _ _ (fields_of v) (fields_of w)
                kept.1.0 s.settled))
          (ok-injective (
            sym t.refunded
            ∙ amount-unchanged (lit "refunded_total_base_units") _ _ (fields_of v) (fields_of w)
                kept.1.1.0 s.refunded)),
      allowed_from (fields_of v) r.expected r.allowed,
      subst (λ x. is_text (at (lit "status") (fields_of w)) (lit x) ≡ true)
          (allowed_states (fields_of v) r.expected r.allowed) r.status,
    )
