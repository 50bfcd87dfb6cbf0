-- ===== src/Hdk2udp/Parameters.antt =====
-- marshal and marshalParameter of cmd/hdk2udp/main.go: the parameters that tell of a message. Integers
-- with a sign are their two's complement bit patterns.
pub mod Reading
use hadock.Common.{
  ℕ, ◌-◌, ◌/◌, Bool, true, Option, none, some, List, [], ◌∷◌, ◌++◌, map, Bytes, ltb, if◌then◌else◌,
  u64,
}
use hadock.Common.Texts.{codes}
use hadock.Notifier.{Message}

-- What the interface{} of type value holds, by the cases of the switch.
pub data Held : Type 0 where
  string : Bytes → Held
  uint32 : ℕ → Held
  channel : ℕ → Held
  int32 : ℕ → Held
  duration : ℕ → Held
  int64 : ℕ → Held
  boolean : Bool → Held

-- type value struct
pub record Value : Type 0 where
  pub local : Bytes
  pub name : Bytes
  pub value : Held

-- yamcs.Value: the type and the field that is set.
pub data EngValue : Type 0 where
  string_value : Bytes → EngValue
  uint32_value : ℕ → EngValue
  sint32_value : ℕ → EngValue
  sint64_value : ℕ → EngValue
  boolean_value : Bool → EngValue

-- pvalue.ParameterValue. All are acquired.
pub record ParameterValue : Type 0 where
  pub id : Bytes
  pub namespace : Bytes
  pub eng_value : EngValue
  pub generation_time : ℕ
  pub acquisition_time : ℕ

-- pvalue.ParameterData
pub record ParameterData : Type 0 where
  pub group : Bytes
  pub generation_time : ℕ
  pub seq_num : ℕ
  pub parameters : List ParameterValue

-- t / 1000, of an int64: towards zero.
unfoldable pub to_seconds : ℕ → ℕ
to_seconds t =
    if ltb t 9223372036854775808
    then t / 1000
    else u64 (18446744073709551616 - (18446744073709551616 - t) / 1000)

abbrev pub underscore : Bytes
underscore = codes "_"

-- `channel_int32` is int32 of a panda.Channel, `acquisition_time` and `generation_time` are
-- AcquisitionTimeFromEpoch and GenerationTimeFromEpoch of panda.
module _ (channel_int32 acquisition_time generation_time : ℕ → ℕ) where
  abbrev pub eng_value_of : Held → EngValue
  eng_value_of (string v) = string_value v
  eng_value_of (uint32 v) = uint32_value v
  eng_value_of (channel v) = sint32_value (channel_int32 v)
  eng_value_of (int32 v) = sint32_value v
  eng_value_of (duration v) = sint64_value v
  eng_value_of (int64 v) = sint64_value v
  eng_value_of (boolean v) = boolean_value v

  unfoldable pub marshal_parameter : Value → ℕ → ℕ → ParameterValue
  marshal_parameter v w t = record {
    id = v.local ++ v.name;
    namespace = v.local;
    eng_value = eng_value_of v.value;
    generation_time = t;
    acquisition_time = w;
  }

  -- The literal vs.
  unfoldable pub values_of : Message → Bytes → ℕ → List Value
  values_of m n adjt =
      record { local = n; name = codes "origin"; value = string m.origin }
      ∷ record { local = n; name = codes "sequence"; value = uint32 m.sequence }
      ∷ record { local = n; name = codes "instance"; value = int32 m.instance_id }
      ∷ record { local = n; name = codes "channel"; value = channel m.channel }
      ∷ record { local = n; name = codes "realtime"; value = boolean m.realtime }
      ∷ record { local = n; name = codes "count"; value = uint32 m.count }
      ∷ record { local = n; name = codes "elapsed"; value = duration m.elapsed }
      ∷ record { local = n; name = codes "timestamp"; value = int64 (to_seconds adjt) }
      ∷ record { local = n; name = codes "reference"; value = string m.reference }
      ∷ record { local = n; name = codes "upi"; value = string m.upi }
      ∷ []

  -- The body of the loop, by the new name of the value.
  abbrev pub named_parameter : Message → ℕ → ℕ → Value → ParameterValue
  named_parameter m w t v =
      marshal_parameter (record v { name = m.origin ++ (underscore ++ v.name) }) w t

  -- What marshal encodes; `now` is the time in seconds.
  unfoldable pub parameter_data : ℕ → Message → Bytes → ℕ → ParameterData
  parameter_data now m n i =
      let adjw = acquisition_time now in
      let adjt = generation_time m.generated in
      record {
        group = n;
        generation_time = adjt;
        seq_num = i;
        parameters = map (named_parameter m adjw adjt) (values_of m n adjt);
      }
