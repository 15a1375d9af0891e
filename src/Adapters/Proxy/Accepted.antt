-- ===== src/Adapters/Proxy/Accepted.antt =====
-- internal/adapters/proxyplugin/controller.go: the proxies that are checked before the controller keeps
-- or gives them.
use browser_automation_byte.Prelude.{
  String, Bool, true, false, ◌||◌, ◌≡◌, ◌⊎◌, refl, sym, ap, inl, inr, Option, none, some, [], ◌∷◌,
  Map, lookup, insert, lookup-insert, str_eq, if◌then◌else◌, arith, trim_space, Bool-cases,
}
use browser_automation_byte.Core.Errors.{GoError}
use browser_automation_byte.Core.Reply.{Reply, ok, fail, fail_with, ◌>>=◌}
use browser_automation_byte.Core.Messages.{ProxySelection}
use browser_automation_byte.Adapters.Proxy.{
  Controller, resolve_manual, resolve_legacy, valid_or, configured_or,
}
use browser_automation_byte.Adapters.Proxy.Setup.{
  ProxyConfig, validate_proxy_value, put_valid, put_manual_refs, controller_of, with_client,
  new_controller,
}
use browser_automation_byte.Adapters.ProxyClient.{Transport, Formats, Client, new_client}
use browser_automation_byte.Adapters.ProxyClient.Leasing.{lease_client}

guard-ok :
    (test : Bool) (err : GoError) {rest : Reply (Map String)} {made : Map String}
    → (if test then fail err else rest) ≡ ok made
    → (test ≡ false) × (rest ≡ ok made)
guard-ok true err h = cc
guard-ok false err h = (refl, h)

module _ (validate : String → Option GoError) where
  -- Every value of the map is accepted.
  pub IsAccepted : Map String → Type 0
  IsAccepted manual = (key value : String) → lookup key manual ≡ some value → validate value ≡ none

  nil-IsAccepted : IsAccepted []
  unfolding IsAccepted lookup
  nil-IsAccepted key value h = cc

  insert-IsAccepted :
      (key value : String) (manual : Map String)
      → validate value ≡ none
      → IsAccepted manual
      → IsAccepted (insert key value manual)
  unfolding IsAccepted
  insert-IsAccepted key value manual v a k w h = elim (Bool-cases (str_eq key k)) [
    | inl e ↦
        let same : value ≡ w = ground (arith, lookup-insert key k value manual, h, e) in
        rw (← same) v
    | inr e ↦ a k w (ground (arith, lookup-insert key k value manual, h, e))
  ]

module _ (validate : String → Option GoError) (quote : String → String) where
  put_valid-ok :
      (key : String) (err : Option GoError) (rest : Reply (Map String)) {made : Map String}
      → put_valid validate quote key err rest ≡ ok made
      → (err ≡ none) × (rest ≡ ok made)
  put_valid-ok key none rest h = (refl, h)
  put_valid-ok key (some err) rest h = cc

  put_manual_refs-IsAccepted :
      (refs manual made : Map String)
      → put_manual_refs validate quote refs manual ≡ ok made
      → IsAccepted validate manual
      → IsAccepted validate made
  unfolding put_manual_refs
  put_manual_refs-IsAccepted [] manual made h a = let same : manual ≡ made = cc in rw (← same) a
  put_manual_refs-IsAccepted ((raw_key, raw_value) ∷ refs) manual made h a =
      let key = trim_space raw_key in
      let value = trim_space raw_value in
      let (filled, valid) = guard-ok (str_eq key "" || str_eq value "") _ h in
      let (v, rest) = put_valid-ok key (validate value) _ valid in
      put_manual_refs-IsAccepted refs (insert key value manual) made rest
        (insert-IsAccepted validate key value manual v a)

-- The check that a controller made by `new_controller` applies is the one that it keeps, and its manual
-- proxies have passed it.
pub record IsSetUp {E : Type 0} (validate : String → Option GoError) (c : Controller E)
    : Type 0 where
  pub same_check : c.validate_proxy_value ≡ validate
  pub accepted : IsAccepted validate c.manual

with_client-IsSetUp :
    {E : Type 0} (transport : Transport E) (formats : Formats) (validate : String → Option GoError)
    (quote : String → String) (manual : Map String) (client : Reply (Option Client))
    (c : Controller E)
    → IsAccepted validate manual
    → with_client transport formats validate quote manual client ≡ ok c
    → IsSetUp validate c
with_client-IsSetUp transport formats validate quote manual (ok none) c a h =
    let same : controller_of transport formats validate quote manual none ≡ c = cc in
    rw (← same) (record { same_check = refl; accepted = a })
with_client-IsSetUp transport formats validate quote manual (ok (some client)) c a h =
    let made =
      controller_of transport formats validate quote manual
        (some (lease_client transport formats client)) in
    let same : made ≡ c = cc in rw (← same) (record { same_check = refl; accepted = a })
with_client-IsSetUp transport formats validate quote manual (fail err) c a h = cc
with_client-IsSetUp transport formats validate quote manual (fail_with client err) c a h = cc

made-IsSetUp :
    {E : Type 0} (transport : Transport E) (formats : Formats) (validate : String → Option GoError)
    (quote : String → String) (manual : Reply (Map String)) (client : Reply (Option Client))
    (c : Controller E)
    → ((m : Map String) → manual ≡ ok m → IsAccepted validate m)
    → (manual >>= (λ m. with_client transport formats validate quote m client)) ≡ ok c
    → IsSetUp validate c
made-IsSetUp transport formats validate quote (ok m) client c a h =
    with_client-IsSetUp transport formats validate quote m client c (a m refl) h
made-IsSetUp transport formats validate quote (fail err) client c a h = cc
made-IsSetUp transport formats validate quote (fail_with m err) client c a h = cc

new_controller-IsSetUp :
    {E : Type 0} (transport : Transport E) (formats : Formats) (to_lower quote : String → String)
    (cfg : ProxyConfig) (c : Controller E)
    → new_controller transport formats to_lower quote cfg ≡ ok c
    → IsSetUp (validate_proxy_value formats.net to_lower) c
unfolding new_controller
new_controller-IsSetUp transport formats to_lower quote cfg c h =
    let validate = validate_proxy_value formats.net to_lower in
    made-IsSetUp transport formats validate quote
      (put_manual_refs validate quote cfg.manual_refs []) (new_client formats cfg.client) c
      (λ m e.
        put_manual_refs-IsAccepted validate quote cfg.manual_refs [] m e (nil-IsAccepted validate))
      h

module _ {E : Type 0} (validate : String → Option GoError) (c : Controller E) where
  -- A url that a browser can be told of, or none.
  abbrev IsUsable : String → Type 0
  IsUsable url = (url ≡ "") ⊎ (validate url ≡ none)

  valid_or-IsUsable :
      (url : String) (err : Option GoError)
      → validate url ≡ err
      → IsUsable (valid_or c url err).proxy.url
  valid_or-IsUsable url none h = inr h
  valid_or-IsUsable url (some err) h = inl refl

  configured_or-IsUsable :
      (ref : String) (err : GoError) (found : Option String)
      → ((url : String) → found ≡ some url → validate url ≡ none)
      → IsUsable (configured_or c ref err found).proxy.url
  configured_or-IsUsable ref err none h = inl refl
  configured_or-IsUsable ref err (some url) h = inr (h url refl)

  resolve_manual-IsUsable :
      (selection : ProxySelection)
      → IsSetUp validate c
      → IsUsable (resolve_manual c selection).proxy.url
  unfolding resolve_manual IsAccepted
  resolve_manual-IsUsable selection s =
      let raw_url = trim_space selection.manual_proxy_url in
      let ref = trim_space selection.manual_proxy_ref in
      elim (Bool-cases (str_eq raw_url "")) [
        | inr e ↦
            rw (e, resolve_manual)
              (valid_or-IsUsable raw_url (c.validate_proxy_value raw_url)
                (ap (λ f. f raw_url) (sym s.same_check)))
        | inl e ↦ elim (Bool-cases (str_eq ref "")) [
          | inl f ↦ rw (e, resolve_manual) (rw (f) (inl refl))
          | inr f ↦
              rw (e, resolve_manual)
                (rw (f) (
                  configured_or-IsUsable ref _ (lookup ref c.manual)
                    (λ url h. s.accepted ref url h)))
        ]
      ]

  resolve_legacy-IsUsable :
      (ref : String) → IsSetUp validate c → IsUsable (resolve_legacy c ref).proxy.url
  unfolding resolve_legacy IsAccepted
  resolve_legacy-IsUsable given s =
      let ref = trim_space given in
      elim (Bool-cases (str_eq ref "")) [
        | inl f ↦ rw (f, resolve_legacy) (inl refl)
        | inr f ↦
            rw (f, resolve_legacy)
              (configured_or-IsUsable ref _ (lookup ref c.manual) (λ url h. s.accepted ref url h))
      ]

-- If `NewController` succeeds, every url that the controller resolves a manual selection or a profile's
-- reference to is empty or passes `validateProxyValue`.
pub new_controller-IsUsable :
    {E : Type 0} (transport : Transport E) (formats : Formats) (to_lower quote : String → String)
    (cfg : ProxyConfig) (c : Controller E) (selection : ProxySelection) (ref : String)
    → new_controller transport formats to_lower quote cfg ≡ ok c
    → let validate = validate_proxy_value formats.net to_lower in
      IsUsable validate c (resolve_manual c selection).proxy.url
      × IsUsable validate c (resolve_legacy c ref).proxy.url
new_controller-IsUsable transport formats to_lower quote cfg c selection ref h =
    let validate = validate_proxy_value formats.net to_lower in
    let s = new_controller-IsSetUp transport formats to_lower quote cfg c h in
    (resolve_manual-IsUsable validate c selection s, resolve_legacy-IsUsable validate c ref s)
