-- ===== src/Platform/ProxyUrl.antt =====
-- internal/platform/proxyurl/proxyurl.go: how the text of a proxy is read as a url, and what a browser
-- is told of it. `net/url` and `strings.ToLower` are parameters.
pub mod Collect
pub mod Laws
use browser_automation_byte.Prelude.{
  String, Bool, true, false, not, ◌&&◌, ◌||◌, Option, none, some, List, [], ◌∷◌, Map, str_eq,
  if◌then◌else◌, trim_space, ◌==◌,
}
use browser_automation_byte.Prelude.Split.{count, split, split_once, contains}
use Prim.Native.String.{◌++◌ as str_append}
use browser_automation_byte.Core.Errors.{plain}
use browser_automation_byte.Core.Reply.{Reply, ok, fail}
use browser_automation_byte.Platform.Urls.{Url, Userinfo, NetUrl}

-- The switch of `NormalizeScheme`
unfoldable pub canonical_scheme : String → String
canonical_scheme lower =
    if str_eq lower "socks5" || str_eq lower "socks5h"
    then "socks5"
    else if str_eq lower "https"
    then "https"
    else if str_eq lower "http" || str_eq lower ""
    then "http"
    else lower

-- `NormalizeScheme`
unfoldable pub normalize_scheme : (String → String) → String → String
unfolding canonical_scheme
normalize_scheme to_lower scheme = canonical_scheme (to_lower (trim_space scheme))

module _ (net : NetUrl) (to_lower : String → String) where
  open net use {parse as url_parse, hostname}

  -- `parseURL`, once `url.Parse` has answered
  unfoldable pub with_host : String → Option Url → Reply Url
  unfolding normalize_scheme
  with_host default_scheme none = fail (plain "invalid proxy URL")
  with_host default_scheme (some given) =
      let parsed =
        if str_eq given.scheme ""
        then record given { scheme = normalize_scheme to_lower default_scheme }
        else given in
      if str_eq parsed.host "" || str_eq (hostname parsed.host) ""
      then fail (plain "proxy URL host is required")
      else ok parsed

  -- `parseURL`
  unfoldable pub parse_url : String → String → Reply Url
  unfolding with_host
  parse_url raw default_scheme = with_host default_scheme (url_parse (trim_space raw))

  -- `buildURL`
  unfoldable pub build_url : String → String → String → String → Reply Url
  unfolding normalize_scheme
  build_url scheme host username password =
      if str_eq (trim_space host) ""
      then fail (plain "proxy host is required")
      else ok (record {
        scheme = normalize_scheme to_lower scheme;
        user =
            some (record { username = trim_space username; password = some (trim_space password) });
        host = trim_space host;
        path = "";
        raw_query = "";
        fragment = "";
      })

  -- `parseAtFormat`, with the parts of the value
  unfoldable pub parse_at_parts : String → String → List String → Reply Url
  unfolding build_url parse_url
  parse_at_parts value scheme (first ∷ second ∷ []) =
      let left = trim_space first in
      let right = trim_space second in
      if count b':' left == 1 && count b':' right == 1
      then (let (username, password) = split_once b':' right in
          build_url scheme left username password)
      else parse_url (str_append scheme (str_append "://" value)) scheme
  parse_at_parts value scheme _ = fail (plain "invalid proxy credential format")

  -- `parseAtFormat`
  unfoldable pub parse_at_format : String → String → Reply Url
  unfolding parse_at_parts
  parse_at_format value scheme = parse_at_parts value scheme (split b'@' value)

  -- `parseHostPortUserPass`, with the parts of the value
  unfoldable pub parse_four_parts : String → List String → Reply Url
  unfolding build_url
  parse_four_parts scheme (host ∷ port ∷ username ∷ password ∷ []) =
      build_url scheme (str_append host (str_append ":" port)) username password
  parse_four_parts scheme _ = fail (plain "invalid host:port:user:password proxy format")

  -- `parseHostPortUserPass`
  unfoldable pub parse_host_port_user_pass : String → String → Reply Url
  unfolding parse_four_parts
  parse_host_port_user_pass value scheme = parse_four_parts scheme (split b':' value)

  -- `Parse`
  unfoldable pub parse_proxy : String → String → Reply Url
  unfolding normalize_scheme parse_url parse_at_format parse_host_port_user_pass
  parse_proxy raw default_scheme =
      let value = trim_space raw in
      let scheme = normalize_scheme to_lower default_scheme in
      if str_eq value ""
      then fail (plain "proxy value is empty")
      else if contains value "://"
      then parse_url value scheme
      else if contains value "@"
      then parse_at_format value scheme
      else if count b':' value == 3
      then parse_host_port_user_pass value scheme
      else parse_url (str_append scheme (str_append "://" value)) scheme

  abbrev with_password : Option String → Map String
  with_password none = []
  with_password (some password) = ("password", password) ∷ []

  abbrev with_user : Option Userinfo → Map String
  with_user none = []
  with_user (some user) =
      if str_eq user.username ""
      then with_password user.password
      else ("username", user.username) ∷ with_password user.password

  -- `BrowserMap` on a url that is not nil
  unfoldable pub browser_map : Url → Reply (Map String)
  browser_map value =
      if str_eq value.scheme "" || str_eq value.host "" || str_eq (hostname value.host) ""
      then fail (plain "proxy URL must include scheme and host")
      else if not (str_eq value.raw_query "")
          || not (str_eq value.fragment "")
          || (not (str_eq value.path "") && not (str_eq value.path "/"))
      then fail (plain "proxy URL must not include path, query, or fragment")
      else ok
          (("server", str_append value.scheme (str_append "://" value.host)) ∷ with_user value.user)
