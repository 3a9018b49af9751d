-- ===== src/Broker/Messages.antt =====
-- The protobuf messages of the source, field by field; an `optional` field is an option.
use pyka.Common.{ℕ, List, Bool, Option}
use pyka.Common.Int.{ℤ}
use pyka.Python.Struct.{Bytes}
use pyka.Python.Text.{Str}

pub record ProduceRequest : Type 0 where
  pub topic : Str
  pub key : Option Bytes
  pub value : Option Bytes
  pub timestamp : Option ℤ
  pub partition : Option ℤ
  pub correlation_id : Option ℤ

pub record ProduceResponse : Type 0 where
  pub partition : ℕ
  pub offset : ℤ
  pub correlation_id : Option ℤ

-- A `max_records` below 0 is one of 0.
pub record ConsumeRequest : Type 0 where
  pub topic : Str
  pub partition : ℤ
  pub offset : ℤ
  pub follow : Bool
  pub max_records : ℕ

pub record Message : Type 0 where
  pub offset : ℤ
  pub timestamp : ℤ
  pub key : Option Bytes
  pub value : Option Bytes

pub record PartitionMetadata : Type 0 where
  pub partition : ℕ
  pub broker : ℕ
  pub address : Str

pub record TopicMetadata : Type 0 where
  pub name : Str
  pub partitions : List PartitionMetadata

pub record MetadataResponse : Type 0 where
  pub topics : List TopicMetadata
  pub broker_count : ℕ
  pub broker_id : ℕ
