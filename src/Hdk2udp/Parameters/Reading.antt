-- ===== src/Hdk2udp/Parameters/Reading.antt =====
-- The message that the parameters of cmd/hdk2udp/main.go tell of.
use hadock.Common.{
  ℕ, ◌≡◌, refl, ◌∙◌, Bool, false, Option, none, some, List, [], ◌∷◌, ◌++◌, map, Bytes,
  if◌then◌else◌, arith, All,
}
use hadock.Common.Texts.{codes, text_eq}
use hadock.Notifier.{Message}
use hadock.Hdk2udp.Parameters.{
  EngValue, string_value, uint32_value, sint32_value, sint64_value, boolean_value, Value,
  ParameterValue, ParameterData, underscore, eng_value_of, marshal_parameter, values_of,
  named_parameter, parameter_data,
}

-- The value of the first parameter of a name.
unfoldable pub find_parameter : Bytes → List ParameterValue → Option EngValue
find_parameter k [] = none
find_parameter k (p ∷ ps) =
    let rest = find_parameter k ps in if text_eq k p.id then some p.eng_value else rest

abbrev pub string_in : Option EngValue → Bytes
string_in (some (string_value v)) = v
string_in _ = []

abbrev pub number_in : Option EngValue → ℕ
number_in (some (uint32_value v)) = v
number_in (some (sint32_value v)) = v
number_in (some (sint64_value v)) = v
number_in _ = 0

abbrev pub boolean_in : Option EngValue → Bool
boolean_in (some (boolean_value v)) = v
boolean_in _ = false

-- The value of the parameter `name` of an origin.
abbrev pub parameter_of : Bytes → ParameterData → Bytes → Option EngValue
parameter_of origin d name =
    find_parameter (d.group ++ (origin ++ (underscore ++ name))) d.parameters

-- The value of the first parameter, which is the origin.
abbrev pub first_string : List ParameterValue → Bytes
first_string [] = []
first_string (p ∷ ps) = string_in (some p.eng_value)

-- A reader by the names, for the origin of the first parameter. `channel_of` is the channel of an int32.
-- The times of a message are not told: the reader sets them to zero.
unfoldable pub message_of_parameters : (ℕ → ℕ) → ParameterData → Message
message_of_parameters channel_of d =
    let origin = first_string d.parameters in
    record {
      origin = string_in (parameter_of origin d (codes "origin"));
      sequence = number_in (parameter_of origin d (codes "sequence"));
      instance_id = number_in (parameter_of origin d (codes "instance"));
      channel = channel_of (number_in (parameter_of origin d (codes "channel")));
      realtime = boolean_in (parameter_of origin d (codes "realtime"));
      count = number_in (parameter_of origin d (codes "count"));
      elapsed = number_in (parameter_of origin d (codes "elapsed"));
      generated = 0;
      acquired = 0;
      reference = string_in (parameter_of origin d (codes "reference"));
      upi = string_in (parameter_of origin d (codes "upi"));
    }

text_eq-append : (p s t : Bytes) → text_eq (p ++ s) (p ++ t) ≡ text_eq s t
text_eq-append [] s t = refl
text_eq-append (a ∷ p) s t = ground (arith, text_eq-append p s t)

module _ (channel_int32 acquisition_time generation_time : ℕ → ℕ) where
  -- The value of a name among those that are to be marshalled.
  abbrev find_value : Bytes → List Value → Option EngValue
  find_value k [] = none
  find_value k (v ∷ vs) =
      let rest = find_value k vs in
      if text_eq k v.name
      then some (eng_value_of channel_int32 acquisition_time generation_time v.value)
      else rest

  find_parameter-named_parameter :
      (m : Message) (n k : Bytes) (w t : ℕ) (vs : List Value)
      → All (λ v. v.local ≡ n) vs
      → find_parameter
          (n ++ (m.origin ++ (underscore ++ k)))
          (map (named_parameter channel_int32 acquisition_time generation_time m w t) vs)
        ≡ find_value k vs
  unfolding find_parameter marshal_parameter
  find_parameter-named_parameter m n k w t [] h = refl
  find_parameter-named_parameter m n k w t (v ∷ vs) h =
      let e : text_eq (n ++ (m.origin ++ (underscore ++ k)))
            (n ++ (m.origin ++ (underscore ++ v.name)))
          ≡ text_eq k v.name =
        text_eq-append n _ _ ∙ text_eq-append m.origin _ _ ∙ text_eq-append underscore k v.name in
      rw (h.0, e, find_parameter-named_parameter m n k w t vs h.1)

  parameter_of-parameter_data :
      (now : ℕ) (m : Message) (n k : Bytes) (i : ℕ)
      → parameter_of m.origin
          (parameter_data channel_int32 acquisition_time generation_time now m n i)
          k
        ≡ find_value k (
            values_of channel_int32 acquisition_time generation_time m n
              (generation_time m.generated))
  unfolding parameter_data values_of
  parameter_of-parameter_data now m n k i =
      find_parameter-named_parameter m n k (acquisition_time now) (generation_time m.generated)
        (values_of channel_int32 acquisition_time generation_time m n (generation_time m.generated))
        (refl, (refl, (refl, (refl, (refl, (refl, (refl, (refl, (refl, (refl, tt))))))))))

  first_string-parameter_data :
      (now : ℕ) (m : Message) (n : Bytes) (i : ℕ)
      → first_string
          (parameter_data channel_int32 acquisition_time generation_time now m n i).parameters
        ≡ m.origin
  unfolding parameter_data values_of marshal_parameter
  first_string-parameter_data now m n i = refl

  -- From the parameters of a message a reader has back all its fields but the two times, whatever its
  -- texts are, if the int32 of a channel tells which channel it is.
  pub message_of_parameters-parameter_data :
      (channel_of : ℕ → ℕ) (now : ℕ) (m : Message) (n : Bytes) (i : ℕ)
      → channel_of (channel_int32 m.channel) ≡ m.channel
      → message_of_parameters channel_of
          (parameter_data channel_int32 acquisition_time generation_time now m n i)
        ≡ record m { generated = 0; acquired = 0 }
  unfolding message_of_parameters values_of
  message_of_parameters-parameter_data channel_of now m n i h =
      simp (first_string-parameter_data now m n i, parameter_of-parameter_data now m n _ i, h)
