-- ===== src/Client.antt =====
-- src/client/CClient.cpp: the members of `CClient` and their setters. A certificate or key in memory
-- is named by its address, and `freed` lists the addresses given back to OpenSSL.
pub mod Url
pub mod Request
pub mod Reply
pub mod Run
use solusek.Base.{ℕ, Bool, true, false, List, [], ◌∷◌, Option, none, some, Bytes, codes, ℤ, pos}
use solusek.StringMap.{StringMap, map_set, map_erase}

pub record Client : Type 0 where
  pub endpoint : Bytes
  pub method : Bytes
  pub use_ssl : Bool
  pub verbose : Bool
  pub cert_file_name : Bytes
  pub key_file_name : Bytes
  pub key_password : Bytes
  pub pkcs12_file_name : Bytes
  pub pkcs12_password : Bytes
  pub cert_mem : Option ℕ
  pub key_mem : Option ℕ
  pub additional_headers : StringMap
  pub timeout : ℤ
  pub freed : List ℕ

-- The constructor.
unfoldable pub new_client : Client
unfolding map_set
new_client = record {
  endpoint = [];
  method = codes "POST";
  use_ssl = false;
  verbose = false;
  cert_file_name = [];
  key_file_name = [];
  key_password = [];
  pkcs12_file_name = [];
  pkcs12_password = [];
  cert_mem = none;
  key_mem = none;
  additional_headers = map_set (codes "Content-type") (codes "application/json") [];
  timeout = pos 30000;
  freed = [];
}

unfoldable pub set_timeout : ℤ → Client → Client
set_timeout t c = record c { timeout = t }

unfoldable pub set_verbose : Bool → Client → Client
set_verbose b c = record c { verbose = b }

unfoldable pub set_method : Bytes → Client → Client
set_method s c = record c { method = s }

unfoldable pub set_use_ssl : Bool → Client → Client
set_use_ssl b c = record c { use_ssl = b }

unfoldable pub set_endpoint : Bytes → Client → Client
set_endpoint s c = record c { endpoint = s }

unfoldable pub set_header : Bytes → Bytes → Client → Client
unfolding map_set
set_header name val c = record c { additional_headers = map_set name val c.additional_headers }

unfoldable pub remove_header : Bytes → Client → Client
unfolding map_erase
remove_header name c = record c { additional_headers = map_erase name c.additional_headers }

unfoldable pub set_ssl_certificate : Bytes → Client → Client
set_ssl_certificate fn c = record c { cert_file_name = fn }

unfoldable pub set_ssl_key_file : Bytes → Bytes → Client → Client
set_ssl_key_file fn password c = record c { key_file_name = fn; key_password = password }

-- What is freed for a pointer that is not null.
abbrev pub freed_for : Option ℕ → List ℕ → List ℕ
freed_for none freed = freed
freed_for (some p) freed = p ∷ freed

unfoldable pub set_ssl_certificate_mem : Option ℕ → Client → Client
set_ssl_certificate_mem fn c = record c { cert_mem = fn; freed = freed_for c.cert_mem c.freed }

unfoldable pub set_ssl_key_file_mem : Option ℕ → Bytes → Client → Client
set_ssl_key_file_mem fn password c = record c {
  key_mem = fn;
  key_password = password;
  freed = freed_for c.key_mem c.freed;
}

unfoldable pub set_ssl_pkcs12 : Bytes → Bytes → Client → Client
set_ssl_pkcs12 fn password c = record c { pkcs12_file_name = fn; pkcs12_password = password }
