-- ===== src/App/Validation/Parts.antt =====
-- What an operation needs, said without the checks, and the checks on its parts.
use browser_automation_byte.Prelude.{
  ℕ, suc, ◌+◌, String, true, false, ◌≡◌, refl, ◌≢◌, ◌⊎◌, ◌↔◌, inl, inr, Option, none, some, List,
  [], ◌∷◌, All, eq_iff, arith, trim_space, Option-cases,
}
use browser_automation_byte.Prelude.Int.{pos}
use browser_automation_byte.Core.Errors.{GoError}
use browser_automation_byte.Core.Reply.{◌then_check◌}
use browser_automation_byte.Core.Messages.{get_of}
use browser_automation_byte.Core.Times.{duration}
use browser_automation_byte.Core.Commands.{
  Operation, Selector, Target, SecretRef, navigate, click, fill, set_checked, clear, focus, blur,
  hover, type_text, press, mouse_move, mouse_click, drag, scroll, wait_for_selector, extract_text,
  count_elements, extract_element, submit_form, wait_for_text, wait_for_url, wait_for_timeout,
  wait_for_network_request, get_network_requests, get_attribute, upload_file, select_option,
  evaluate, is_zero,
}
use browser_automation_byte.App.Validation.Checks.{
  validate_secret_ref, any_candidate, has_selector, require_selector, require_string, is_present,
  is_empty, validate_secret_refs,
}

-- A selector that is there, with a value.
abbrev pub HasValue : Option Selector → Type 0
HasValue s = get_of (λ s. s.value) "" s ≢ ""

abbrev pub Some {ℓ} : {A : Type ℓ} → (A → Type 0) → List A → Type 0
Some P [] = ⊥
Some P (x ∷ xs) = P x ⊎ Some P xs

-- A target names an element by its selector or by a member of its group.
abbrev pub NamesElement : Target → Type 0
NamesElement t = HasValue t.selector ⊎ Some HasValue (get_of (λ g. g.selectors) [] t.selector_group)

-- A secret reference with an id, a provider and a purpose that are not blank.
abbrev pub IsComplete : Option SecretRef → Type 0
IsComplete ref =
    (trim_space (get_of (λ r. r.secret_id) "" ref) ≢ "")
    × (trim_space (get_of (λ r. r.provider) "" ref) ≢ "")
    × (trim_space (get_of (λ r. r.purpose) "" ref) ≢ "")

-- What each operation needs, said without the checks.
abbrev pub IsAccepted : Operation → Type 0
IsAccepted (navigate url) = url ≢ ""
IsAccepted (type_text text) = text ≢ ""
IsAccepted (press key) = key ≢ ""
IsAccepted (wait_for_text text) = text ≢ ""
IsAccepted (wait_for_url pattern) = pattern ≢ ""
IsAccepted (click t) = NamesElement t
IsAccepted (fill t) = NamesElement t
IsAccepted (set_checked t) = NamesElement t
IsAccepted (clear t) = NamesElement t
IsAccepted (focus t) = NamesElement t
IsAccepted (blur t) = NamesElement t
IsAccepted (hover t) = NamesElement t
IsAccepted (wait_for_selector t) = NamesElement t
IsAccepted (extract_text t) = NamesElement t
IsAccepted (count_elements t) = NamesElement t
IsAccepted (extract_element t) = NamesElement t
IsAccepted (submit_form t) = NamesElement t
IsAccepted (mouse_move point path) = (point ≢ none) ⊎ (path ≢ [])
IsAccepted (mouse_click point) = point ≢ none
IsAccepted (drag source target source_point target_point) =
    (NamesElement source ⊎ (source_point ≢ none)) × (NamesElement target ⊎ (target_point ≢ none))
IsAccepted (scroll t dx dy) = NamesElement t ⊎ (is_zero dx ≡ false) ⊎ (is_zero dy ≡ false)
IsAccepted (wait_for_timeout d) = (n : ℕ) × (d ≡ some (pos (suc n)))
IsAccepted (wait_for_network_request d) = (n : ℕ) × (duration d ≡ pos n)
IsAccepted (get_network_requests limit) = (n : ℕ) × (limit ≡ pos n)
IsAccepted (get_attribute t name) = NamesElement t × (name ≢ "")
IsAccepted (upload_file t refs) = NamesElement t × (refs ≢ []) × All IsComplete refs
IsAccepted (select_option t values labels indexes) =
    NamesElement t × ((values ≢ []) ⊎ (labels ≢ []) ⊎ (indexes ≢ []))
IsAccepted (evaluate script_ref inline) = (script_ref ≢ "") ⊎ (inline ≢ "")
IsAccepted _ = Unit

any_candidate_iff : (cs : List (Option Selector)) → (any_candidate cs ≡ true) ↔ Some HasValue cs
unfolding any_candidate
any_candidate_iff [] = (λ h. ground arith, λ h. elim h [ ])
any_candidate_iff (c ∷ cs) =
    let e = eq_iff (get_of (λ s. s.value) "" c) "" in
    (λ h. ground (arith, e, any_candidate_iff cs), λ h. ground (arith, e, any_candidate_iff cs))

pub has_selector_iff : (t : Target) → (has_selector t ≡ true) ↔ NamesElement t
unfolding has_selector
has_selector_iff t =
    let e = eq_iff (get_of (λ s. s.value) "" t.selector) "" in
    let g = any_candidate_iff (get_of (λ g. g.selectors) [] t.selector_group) in
    (λ h. ground (arith, e, g), λ h. ground (arith, e, g))

pub require_selector_iff :
    (t : Target) (m : String) → (require_selector t m ≡ none) ↔ NamesElement t
unfolding require_selector
require_selector_iff t m =
    (λ h. ground (arith, has_selector_iff t), λ h. ground (arith, has_selector_iff t))

pub require_string_iff : (s m : String) → (require_string s m ≡ none) ↔ (s ≢ "")
unfolding require_string
require_string_iff s m = (λ h. ground (arith, eq_iff s ""), λ h. ground (arith, eq_iff s ""))

validate_secret_ref_iff :
    (ref : Option SecretRef) → (validate_secret_ref ref ≡ none) ↔ IsComplete ref
unfolding validate_secret_ref
validate_secret_ref_iff ref =
    let a = eq_iff (trim_space (get_of (λ r. r.secret_id) "" ref)) "" in
    let b = eq_iff (trim_space (get_of (λ r. r.provider) "" ref)) "" in
    let c = eq_iff (trim_space (get_of (λ r. r.purpose) "" ref)) "" in
    (λ h. ground (arith, a, b, c), λ h. ground (arith, a, b, c))

pub validate_secret_refs_iff :
    (field : String) (i : ℕ) (refs : List (Option SecretRef))
    → (validate_secret_refs field i refs ≡ none) ↔ All IsComplete refs
unfolding validate_secret_refs
validate_secret_refs_iff field i [] = (λ h. tt, λ h. refl)
validate_secret_refs_iff field i (ref ∷ refs) =
    let here = validate_secret_ref_iff ref in
    let rest = validate_secret_refs_iff field (i + 1) refs in
    elim (Option-cases (validate_secret_ref ref)) [
      | inl e ↦ rw (e, validate_secret_refs) (λ h. (here.0 e, rest.0 h), λ h. rest.1 h.1)
      | inr (err, e) ↦ rw (e, validate_secret_refs) (λ h. cc, λ h. cc (here.1 h.0))
    ]

pub then_check_iff : (a b : Option GoError) → ((a then_check b) ≡ none) ↔ ((a ≡ none) × (b ≡ none))
then_check_iff none b = (λ h. (refl, h), λ h. h.1)
then_check_iff (some e) b = (λ h. cc, λ h. cc)

pub is_present_iff {ℓ} : {A : Type ℓ} (o : Option A) → (is_present o ≡ true) ↔ (o ≢ none)
is_present_iff none = (λ h. cc, λ h. absurd (h refl))
is_present_iff (some a) = (λ h. cc, λ h. refl)

pub is_empty_iff {ℓ} : {A : Type ℓ} (l : List A) → (is_empty l ≡ false) ↔ (l ≢ [])
is_empty_iff [] = (λ h. cc, λ h. absurd (h refl))
is_empty_iff (x ∷ xs) = (λ h. cc, λ h. refl)
