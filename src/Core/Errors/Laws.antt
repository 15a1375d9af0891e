-- ===== src/Core/Errors/Laws.antt =====
-- What the mapping of error codes to the wire keeps.
use browser_automation_byte.Prelude.{
  Option, none, some, ◌≡◌, refl, ◌≢◌, ◌⊎◌, inl, arith, str_eq, eq_iff, if◌then◌else◌, ◌↔◌,
}
use browser_automation_byte.Core.Errors.{
  ErrorCode, ProtoErrorCode, unspecified, error_code_to_proto,
}
use browser_automation_byte.Core.Errors.Code
use mathlib.Core.Option.{some-injective}
use mathlib.Core.Path.{subst}

-- The code that a wire value stands for.
abbrev pub code_of_proto : ProtoErrorCode → Option ErrorCode
code_of_proto ProtoErrorCode.unspecified = none
code_of_proto ProtoErrorCode.validation_failed = some Code.validation_failed
code_of_proto ProtoErrorCode.session_not_found = some Code.session_not_found
code_of_proto ProtoErrorCode.task_not_found = some Code.task_not_found
code_of_proto ProtoErrorCode.artifact_not_found = some Code.artifact_not_found
code_of_proto ProtoErrorCode.session_already_finalized = some Code.session_finalized
code_of_proto ProtoErrorCode.task_already_finalized = some Code.task_finalized
code_of_proto ProtoErrorCode.capacity_unavailable = some Code.capacity_unavailable
code_of_proto ProtoErrorCode.browser_unavailable = some Code.browser_unavailable
code_of_proto ProtoErrorCode.proxy_failed = some Code.proxy_failed
code_of_proto ProtoErrorCode.navigation_failed = some Code.navigation_failed
code_of_proto ProtoErrorCode.script_failed = some Code.script_failed
code_of_proto ProtoErrorCode.timeout = some Code.timeout
code_of_proto ProtoErrorCode.unsupported_operation = some Code.unsupported_operation
code_of_proto ProtoErrorCode.internal = some Code.internal

abbrev Agrees : ErrorCode → ProtoErrorCode → Type 0
Agrees c p = (p ≡ unspecified) ⊎ (code_of_proto p ≡ some c)

step :
    (c k : ErrorCode) (p q : ProtoErrorCode)
    → code_of_proto p ≡ some k
    → Agrees c q
    → Agrees c (if str_eq c k then p else q)
step c k p q h a = ground (arith, eq_iff c k)

error_code_to_proto-Agrees : (c : ErrorCode) → Agrees c (error_code_to_proto c)
unfolding error_code_to_proto
error_code_to_proto-Agrees c =
    step c Code.validation_failed ProtoErrorCode.validation_failed _ refl (
      step c Code.session_not_found ProtoErrorCode.session_not_found _ refl (
        step c Code.task_not_found ProtoErrorCode.task_not_found _ refl (
          step c Code.artifact_not_found ProtoErrorCode.artifact_not_found _ refl (
            step c Code.session_finalized ProtoErrorCode.session_already_finalized _ refl (
              step c Code.task_finalized ProtoErrorCode.task_already_finalized _ refl (
                step c Code.capacity_unavailable ProtoErrorCode.capacity_unavailable _ refl (
                  step c Code.browser_unavailable ProtoErrorCode.browser_unavailable _ refl (
                    step c Code.proxy_failed ProtoErrorCode.proxy_failed _ refl (
                      step c Code.navigation_failed ProtoErrorCode.navigation_failed _ refl (
                        step c Code.script_failed ProtoErrorCode.script_failed _ refl (
                          step c Code.timeout ProtoErrorCode.timeout _ refl (
                            step c Code.unsupported_operation ProtoErrorCode.unsupported_operation _
                              refl
                              (step c Code.internal ProtoErrorCode.internal _ refl
                                (inl refl))))))))))))))

error_code_to_proto-code_of_proto :
    (p : ProtoErrorCode) (c : ErrorCode) → code_of_proto p ≡ some c → error_code_to_proto c ≡ p
unfolding error_code_to_proto
error_code_to_proto-code_of_proto ProtoErrorCode.unspecified c h = cc
error_code_to_proto-code_of_proto p c h =
    subst (λ k. error_code_to_proto k ≡ p) (some-injective _ _ h) refl

-- A code is sent as the wire value p other than UNSPECIFIED exactly when it is the one constant
-- that p stands for; so no two codes share a wire value, and a code outside the constants is sent
-- as UNSPECIFIED.
pub error_code_to_proto_iff :
    (c : ErrorCode) (p : ProtoErrorCode)
    → p ≢ unspecified
    → (error_code_to_proto c ≡ p) ↔ (code_of_proto p ≡ some c)
error_code_to_proto_iff c p n =
    (λ e. ground (arith, error_code_to_proto-Agrees c), error_code_to_proto-code_of_proto p c)
