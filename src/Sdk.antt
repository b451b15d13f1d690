-- ===== src/Sdk.antt =====
-- The HTTP side of xstreamroll-sdk/src. A URL is the list of the texts that it is put together from;
-- bodies are texts.
pub mod Http
pub mod Client
mod Tests
use xstream_roll.Shared.{ℕ, Option, List, String}
use xstream_roll.Shared.Dict.{Dict}

pub data Method : Type 0 where
  get post patch delete : Method

pub record Request : Type 0 where
  pub url : List String
  pub method : Method
  pub headers : Dict String String
  pub body : Option String

pub record Response : Type 0 where
  pub status : ℕ
  pub text : String

-- `RequestInit`.
pub record RequestInit : Type 0 where
  pub headers : Dict String String
  pub body : Option String
