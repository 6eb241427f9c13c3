-- ===== src/Canonical/Tests.antt =====
-- A self-hashed record that is sealed and verified.
use foundry_pay.Base.{ℕ, ◌≡◌, refl, true, none, some, lit, [], ◌∷◌, List, ok}
use foundry_pay.Python.Value.{Fields, int, pos, obj, str, field, get}
use foundry_pay.Python.Pattern.{is_hash}
use foundry_pay.Canonical.Json.{Host, canonical_json_bytes, sha256_raw_bytes}
use foundry_pay.Canonical.Record.{verify_self_hashed_record}
use foundry_pay.Canonical.Record.Sealed.{
  IsSealed, verify_self_hashed_record-IsSealed, verify_self_hashed_record-seal,
}
use foundry_pay.Channel.Sample.{object}
use foundry_pay.Voucher.Running.{running}

-- A serializer and a digest that stand in for the real ones.
abbrev host : Host
host = record {
  dumps = λ v. some (1 ∷ 2 ∷ []);
  sha256_hex = λ b. lit "bbbbbbbbbbbbbbbbbbbbbbbbbbbbbbbbbbbbbbbbbbbbbbbbbbbbbbbbbbbbbbbb";
}

abbrev note : Fields
note = object (("amount", int (pos 5)) ∷ [])

note_bytes : canonical_json_bytes host (obj note) ≡ ok (1 ∷ 2 ∷ [])
unfolding running
note_bytes = refl

note_digest : is_hash (sha256_raw_bytes host (1 ∷ 2 ∷ [])) ≡ true
unfolding running
note_digest = refl

abbrev own_field : List ℕ
own_field = 104 ∷ []

own_absent : get own_field note ≡ none
unfolding running
own_absent = refl

abbrev sealed_note : Fields
sealed_note = field own_field (str (sha256_raw_bytes host (1 ∷ 2 ∷ []))) note

verify_self_hashed_record-seal_example :
    verify_self_hashed_record host (obj sealed_note) own_field ≡ ok note
verify_self_hashed_record-seal_example =
    verify_self_hashed_record-seal host 104 [] note own_absent note_bytes note_digest

sealed_note_accepted : verify_self_hashed_record host (obj sealed_note) own_field ≡ ok note
unfolding running
sealed_note_accepted = refl

verify_self_hashed_record-IsSealed_example : IsSealed host sealed_note own_field note
verify_self_hashed_record-IsSealed_example =
    verify_self_hashed_record-IsSealed host sealed_note own_field note sealed_note_accepted
