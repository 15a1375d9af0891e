-- ===== src/Platform/Urls.antt =====
-- Go's `net/url` and `net` as far as the program uses them: a url's parts are a record, and how a text
-- is read or written as a url is a parameter.
use browser_automation_byte.Prelude.{String, Option}

-- `url.Userinfo`; the password may be missing.
pub record Userinfo : Type 0 where
  pub username : String
  pub password : Option String

-- `url.URL`
pub record Url : Type 0 where
  pub scheme : String
  pub user : Option Userinfo
  pub host : String
  pub path : String
  pub raw_query : String
  pub fragment : String

-- `url.Parse`, the host of a `Host` without its port (`URL.Hostname`), `URL.String`,
-- `Userinfo.String` and `net.JoinHostPort`
pub record NetUrl : Type 0 where
  pub parse : String → Option Url
  pub hostname : String → String
  pub url_text : Url → String
  pub user_text : Userinfo → String
  pub join_host_port : String → String → String
