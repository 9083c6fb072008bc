-- ===== src/Uri.antt =====
-- uri.hpp: what a URI resolves to. Its functions are in the modules below.
pub mod Window
pub mod Encode
pub mod Object
pub mod Resolve
pub mod Names
pub mod Invariant
pub mod Decode
pub mod Subfile
mod Tests
use karu.Base.{ℕ, ◌≡◌, refl, Bool, Bytes, ◌==◌, u64_max}

abbrev pub to_end : ℕ
to_end = u64_max

pub data Backend : Type 0 where
  file http s3 gcs azure hugging_face source : Backend

-- The value of an enumerator, by which enumerators are compared.
abbrev pub rank : Backend → ℕ
rank file = 0
rank http = 1
rank s3 = 2
rank gcs = 3
rank azure = 4
rank hugging_face = 5
rank source = 6

abbrev pub same_backend : Backend → Backend → Bool
same_backend a b = rank a == rank b

pub record Resolved : Type 0 where
  pub backend : Backend
  pub canonical_uri : Bytes
  pub target : Bytes
  pub container : Bytes
  pub key : Bytes
  pub azure_dfs : Bool
  pub window_offset : ℕ
  pub window_length : ℕ

pub data ResolveErrorCode : Type 0 where
  malformed unsupported : ResolveErrorCode

pub record ResolveError : Type 0 where
  pub code : ResolveErrorCode
  pub message : Bytes

-- A message alone is a malformed URI.
abbrev pub malformed_uri : Bytes → ResolveError
malformed_uri text = record { code = malformed; message = text }
