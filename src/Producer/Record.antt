-- ===== src/Producer/Record.antt =====
-- `BaseRecord` and `FutureRecord` with their builders and the conversions between them.
use rust_rdkafka.Prelude.{ℤ, String, Option, none, some}

module _ (K P Headers : Type 0) where
  pub record BaseRecord (D : Type 0) : Type 0 where
    pub topic : String
    pub partition : Option ℤ
    pub payload : Option P
    pub key : Option K
    pub timestamp : Option ℤ
    pub headers : Option Headers
    pub delivery_opaque : D

  pub record FutureRecord : Type 0 where
    pub topic : String
    pub partition : Option ℤ
    pub payload : Option P
    pub key : Option K
    pub timestamp : Option ℤ
    pub headers : Option Headers

module _ {K P Headers : Type 0} where
  module _ {D : Type 0} where
    unfoldable pub with_opaque_to : String → D → BaseRecord K P Headers D
    with_opaque_to topic delivery_opaque = record {
      topic = topic;
      partition = none;
      payload = none;
      key = none;
      timestamp = none;
      headers = none;
      delivery_opaque = delivery_opaque;
    }

    unfoldable pub partition : BaseRecord K P Headers D → ℤ → BaseRecord K P Headers D
    partition r p = record r { partition = some p }

    unfoldable pub payload : BaseRecord K P Headers D → P → BaseRecord K P Headers D
    payload r p = record r { payload = some p }

    unfoldable pub key : BaseRecord K P Headers D → K → BaseRecord K P Headers D
    key r k = record r { key = some k }

    unfoldable pub timestamp : BaseRecord K P Headers D → ℤ → BaseRecord K P Headers D
    timestamp r t = record r { timestamp = some t }

    unfoldable pub headers : BaseRecord K P Headers D → Headers → BaseRecord K P Headers D
    headers r h = record r { headers = some h }

    unfoldable pub topic : BaseRecord K P Headers D → String → BaseRecord K P Headers D
    topic r t = record r { topic = t }

    unfoldable pub delivery_opaque : BaseRecord K P Headers D → D → BaseRecord K P Headers D
    delivery_opaque r d = record r { delivery_opaque = d }

    unfoldable pub from_base_record : BaseRecord K P Headers D → FutureRecord K P Headers
    from_base_record r = record {
      topic = r.topic;
      partition = r.partition;
      payload = r.payload;
      key = r.key;
      timestamp = r.timestamp;
      headers = r.headers;
    }

    unfoldable pub into_base_record : FutureRecord K P Headers → D → BaseRecord K P Headers D
    into_base_record r delivery_opaque = record {
      topic = r.topic;
      partition = r.partition;
      key = r.key;
      payload = r.payload;
      timestamp = r.timestamp;
      headers = r.headers;
      delivery_opaque = delivery_opaque;
    }
