-- ===== src/Resource/Schema.antt =====
-- The property tables of a resource class: the static maps of include/nexran.h.
use nexran.Base.{String, Bool, List, Option}
use nexran.Base.Map.{Map}

pub data JsonType : Type 0 where
  string int uint float object array bool : JsonType

pub data HttpMethod : Type 0 where
  get head post put delete connect options trace patch : HttpMethod

-- `required`, `optional` and `disallowed` are maps from methods: a method with no entry has none.
pub record Schema : Type 0 where
  pub property_types : Map String JsonType
  pub property_enums : Map String (List String)
  pub required : HttpMethod → Option (List String)
  pub optional : HttpMethod → Option (List String)
  pub disallowed : HttpMethod → Option (List String)
  pub immediate_abort : Bool
