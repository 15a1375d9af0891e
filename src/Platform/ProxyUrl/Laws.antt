-- ===== src/Platform/ProxyUrl/Laws.antt =====
-- internal/platform/proxyurl/proxyurl.go: what becomes of a proxy that is written as
-- host:port:user:password.
use browser_automation_byte.Prelude.{
  String, Bool, true, false, ◌||◌, ◌≡◌, refl, ap, ◌∙◌, inl, inr, [], ◌∷◌, str_eq, eq_iff,
  if◌then◌else◌, arith, trim_space, Bool-cases,
}
use browser_automation_byte.Prelude.Split.{count, split, contains}
use browser_automation_byte.Prelude.Split.Laws.{split-append, split_one, count-append}
use Prim.Native.String.{◌++◌ as str_append}
use browser_automation_byte.Core.Reply.{ok, ◌>>=◌}
use browser_automation_byte.Platform.Urls.{NetUrl}
use browser_automation_byte.Platform.ProxyUrl.{
  canonical_scheme, normalize_scheme, build_url, parse_four_parts, parse_host_port_user_pass,
  parse_proxy, browser_map,
}

-- Four texts with a colon after each of the first three.
abbrev pub four_parts : String → String → String → String → String
four_parts host port username password = str_append host (
    String.◌∷◌ ":"
      (str_append port (String.◌∷◌ ":" (str_append username (String.◌∷◌ ":" password)))))

module _ (host port username password : String) where
  abbrev pub LacksColons : Type 0
  LacksColons =
      (count b':' host ≡ 0)
      × (count b':' port ≡ 0)
      × (count b':' username ≡ 0)
      × (count b':' password ≡ 0)

  split-four_parts :
      LacksColons
      → split b':' (four_parts host port username password) ≡ host ∷ port ∷ username ∷ password ∷ []
  split-four_parts (h, p, u, w) =
      rw
        (split-append b':' ":" host
          (str_append port (String.◌∷◌ ":" (str_append username (String.◌∷◌ ":" password)))) refl h)
        (rw (split-append b':' ":" port (str_append username (String.◌∷◌ ":" password)) refl p) (
          rw (split-append b':' ":" username password refl u)
            (rw (split_one b':' password w) refl)))

  count-four_parts : LacksColons → count b':' (four_parts host port username password) ≡ 3
  count-four_parts (h, p, u, w) =
      rw
        (count-append b':' ":" host
          (str_append port (String.◌∷◌ ":" (str_append username (String.◌∷◌ ":" password)))) refl h)
        (rw (count-append b':' ":" port (str_append username (String.◌∷◌ ":" password)) refl p)
          (rw (count-append b':' ":" username password refl u) (rw (w) refl)))

  four_parts-filled : LacksColons → str_eq (four_parts host port username password) "" ≡ false
  unfolding count
  four_parts-filled l = elim (Bool-cases (str_eq (four_parts host port username password) "")) [
    | inl e ↦
        let empty : four_parts host port username password ≡ "" =
          (eq_iff (four_parts host port username password) "").0 e in
        absurd (omega (arith, ap (count b':') empty, count-four_parts l))
    | inr e ↦ e
  ]

right-false : (a : Bool) {b : Bool} → (a || b) ≡ false → b ≡ false
right-false true h = cc
right-false false h = h

canonical_scheme-filled : (lower : String) → str_eq (canonical_scheme lower) "" ≡ false
unfolding canonical_scheme
canonical_scheme-filled lower =
    elim (Bool-cases (str_eq lower "socks5" || str_eq lower "socks5h")) [
      | inl e ↦ rw (e, canonical_scheme) refl
      | inr e ↦ elim (Bool-cases (str_eq lower "https")) [
        | inl f ↦ rw (e, canonical_scheme) (rw (f) refl)
        | inr f ↦ elim (Bool-cases (str_eq lower "http" || str_eq lower "")) [
          | inl g ↦ rw (e, canonical_scheme) (rw (f) (rw (g) refl))
          | inr g ↦ rw (e, canonical_scheme) (rw (f) (rw (g) (right-false (str_eq lower "http") g)))
        ]
      ]
    ]

normalize_scheme-filled :
    (to_lower : String → String) (scheme : String)
    → str_eq (normalize_scheme to_lower scheme) "" ≡ false
unfolding normalize_scheme
normalize_scheme-filled to_lower scheme = canonical_scheme-filled (to_lower (trim_space scheme))

module _ (net : NetUrl) (to_lower : String → String) where
  parse_proxy-four_parts :
      (raw default host port username password : String)
      → trim_space raw ≡ four_parts host port username password
      → LacksColons host port username password
      → contains (trim_space raw) "://" ≡ false
      → contains (trim_space raw) "@" ≡ false
      → parse_proxy net to_lower raw default
        ≡ build_url net to_lower
            (normalize_scheme to_lower default)
            (str_append host (str_append ":" port))
            username
            password
  unfolding parse_proxy parse_host_port_user_pass parse_four_parts
  parse_proxy-four_parts raw default host port username password t l c a =
      let filled : str_eq (trim_space raw) "" ≡ false =
        ap (λ s. str_eq s "") t ∙ four_parts-filled host port username password l in
      let colons : count b':' (trim_space raw) ≡ 3 =
        ap (count b':') t ∙ count-four_parts host port username password l in
      let parts : split b':' (trim_space raw) ≡ host ∷ port ∷ username ∷ password ∷ [] =
        ap (split b':') t ∙ split-four_parts host port username password l in
      rw (filled, parse_proxy)
        (rw (c) (rw (a) (rw (colons) (rw (parts, parse_host_port_user_pass, split) refl))))

  -- A proxy that is written as host:port:user:password, with neither "://" nor "@" in it and with a
  -- host name, is read with the default scheme, and the browser is told the address, the user name
  -- unless it is blank, and the password, each without white space at its ends.
  pub parse_proxy-browser_map :
      (raw default host port username password : String)
      → trim_space raw ≡ four_parts host port username password
      → LacksColons host port username password
      → contains (trim_space raw) "://" ≡ false
      → contains (trim_space raw) "@" ≡ false
      → let address = trim_space (str_append host (str_append ":" port)) in
        str_eq address "" ≡ false
        → str_eq (net.hostname address) "" ≡ false
        → (parse_proxy net to_lower raw default >>= browser_map net to_lower)
          ≡ ok (
              (
                "server",
                str_append
                    (normalize_scheme to_lower (normalize_scheme to_lower default))
                    (str_append "://" address),
              )
              ∷ (if str_eq (trim_space username) ""
                  then ("password", trim_space password) ∷ []
                  else ("username", trim_space username) ∷ ("password", trim_space password) ∷ []))
  unfolding build_url browser_map
  parse_proxy-browser_map raw default host port username password t l c a h n =
      rw (parse_proxy-four_parts raw default host port username password t l c a) (
        rw (h, build_url)
          (rw (normalize_scheme-filled to_lower (normalize_scheme to_lower default), browser_map)
            (rw (h) (rw (n) refl))))
