-- ===== src/Net.antt =====
-- include/pgmem/net/http_common.h: the requests and the responses of src/net. A status code is
-- positive.
pub mod Server
pub mod Routes
pub mod Parse
pub mod Framing
use poorguy_mem.Common.{ℕ, Text, Map}

pub record HttpRequest : Type 0 where
  pub method : Text
  pub path : Text
  pub version : Text
  pub headers : Map Text
  pub body : Text

pub record HttpResponse : Type 0 where
  pub status_code : ℕ
  pub content_type : Text
  pub headers : Map Text
  pub body : Text
