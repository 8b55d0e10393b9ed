-- ===== src/Normalization/Models.antt =====
-- src/normalization/models.py. A mapping's call that raises is `none`.
use ulpf_prism_sih.Prelude.{String, Option, List}
use ulpf_prism_sih.Dict.{Dict}
use ulpf_prism_sih.Json.{Json}
use ulpf_prism_sih.Contracts.RawEvent.{Timestamp}
use ulpf_prism_sih.Contracts.ParsedEvent.{ParsedEvent}

pub record MappingResult : Type 0 where
  pub event : Dict Json
  pub observer : Dict Json
  pub action : Dict Json
  pub severity : Dict Json
  pub source : Option (Dict Json)
  pub destination : Option (Dict Json)
  pub network : Option (Dict Json)
  pub threat : Option (Dict Json)
  pub authentication : Option (Dict Json)
  pub http : Option (Dict Json)
  pub observed_at : Option Timestamp
  pub consumed_fields : List String
  pub missing_fields : List String
  pub warnings : List String

pub record NormalizationMapping : Type 0 where
  pub source_pack_id : String
  pub version : String
  pub map_event : ParsedEvent → Option MappingResult

infixl 5 ◌>>=◌
abbrev pub ◌>>=◌ : {A B : Type 0} → Option A → (A → Option B) → Option B
Option.none >>= f = Option.none
Option.some a >>= f = f a
