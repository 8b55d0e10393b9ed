-- ===== src/Streaming/Messages.antt =====
-- src/streaming/topics.py and messages.py: the topics and the decision for one consumed record.
use ulpf_prism_sih.Prelude.{String, Bool, Option, Text, Bytes}
use ulpf_prism_sih.Dict.{Dict}

pub data Topic : Type 0 where
  raw_event parsed_event normalized_event retry dead_letter framework_metrics : Topic

abbrev pub topic_name : Topic → String
topic_name Topic.raw_event = "raw-event"
topic_name Topic.parsed_event = "parsed-event"
topic_name Topic.normalized_event = "normalized-event"
topic_name Topic.retry = "retry"
topic_name Topic.dead_letter = "dead-letter"
topic_name Topic.framework_metrics = "framework-metrics"

pub record ProcessingDecision : Type 0 where
  pub topic : Topic
  pub key : String
  pub payload : Bytes
  pub event_id : String
  pub terminal : Bool
  pub headers : Dict Text
  pub error_code : Option String
